-- ===== src/Core/Database/InEffect.antt =====
-- What the statements of a migration leave (desktop/core/src/database.rs).
use bit_drive.Prelude.{
  ◌≡◌, ◌≢◌, ◌∙◌, sym, ap, refl, ℕ, suc, Bool, true, false, ◌||◌, Option, none, some, List, [], ◌∷◌,
  ◌++◌, any, take, get_elem?, arith, All,
}
use mathlib.Core.Path.{subst}
use bit_drive.Prelude.Eq.{eqb, string_eq}
use bit_drive.Errors.{Result, ok, err, panic, ProtocolError, err≢ok, panic≢ok}
use bit_drive.Loop.{for_each, for_each-keeps, and_then-ok}
use bit_drive.Core.Database.Schema.{Table, Index, Statement, create_table, create_index}
use bit_drive.Core.Database.Migrations.{
  Schema, make_table, make_index, execute_statement, execute_batch, interrupted, apply_migration,
  is_applied,
}

-- The table or the index is there.
unfoldable pub IsInEffect : Schema → Statement → Type 0
IsInEffect s (create_table t) = any (λ u. eqb u.name t.name) s.tables ≡ true
IsInEffect s (create_index i) = any (λ u. eqb u.name i.name) s.indexes ≡ true

-- What a version that is recorded promised is there.
unfoldable pub IsFaithful : List (List Statement) → Schema → Type 0
unfolding is_applied
IsFaithful all s =
    (i : ℕ) (m : List Statement)
    → get_elem? all i ≡ some m
    → is_applied (suc i) s ≡ true
    → All (IsInEffect s) m

pub any-append {ℓ} :
    {A : Type ℓ} → (p : A → Bool) (xs : List A) (y : A) → any p (xs ++ y ∷ []) ≡ (any p xs || p y)
any-append p [] y = ground arith
any-append p (x ∷ xs) y = ground (arith, any-append p xs y)

-- Nothing is ever taken away, and no version is recorded by a statement.
unfoldable pub IsExtended : Schema → Schema → Type 0
IsExtended s t = ((x : Statement) → IsInEffect s x → IsInEffect t x) × (t.applied ≡ s.applied)

pub same-IsExtended : (s : Schema) → IsExtended s s
unfolding IsExtended
same-IsExtended s = (λ x. λ h. h, refl)

table-IsExtended :
    (s : Schema) (t : Table) → IsExtended s (record s { tables = s.tables ++ t ∷ [] })
unfolding IsExtended IsInEffect
table-IsExtended s t = (grown, refl)
  where
    grown :
        (x : Statement) → IsInEffect s x → IsInEffect (record s { tables = s.tables ++ t ∷ [] }) x
    grown (create_table u) h = any-append (λ v. eqb v.name u.name) s.tables t ∙ rw h refl
    grown (create_index i) h = h

index-IsExtended :
    (s : Schema) (i : Index) → IsExtended s (record s { indexes = s.indexes ++ i ∷ [] })
unfolding IsExtended IsInEffect
index-IsExtended s i = (grown, refl)
  where
    grown :
        (x : Statement) → IsInEffect s x → IsInEffect (record s { indexes = s.indexes ++ i ∷ [] }) x
    grown (create_table u) h = h
    grown (create_index k) h = any-append (λ v. eqb v.name k.name) s.indexes i ∙ rw h refl

make_table-IsExtended :
    (there : Bool) (s : Schema) (t : Table) → IsExtended s (make_table there t s).0
unfolding make_table
make_table-IsExtended true s t = same-IsExtended s
make_table-IsExtended false s t = table-IsExtended s t

make_index-IsExtended :
    (fits there : Bool) (s : Schema) (i : Index) → IsExtended s (make_index fits there i s).0
unfolding make_index
make_index-IsExtended false there s i = same-IsExtended s
make_index-IsExtended true true s i = same-IsExtended s
make_index-IsExtended true false s i = index-IsExtended s i

execute_statement-IsExtended : (s : Schema) (x : Statement) → IsExtended s (execute_statement s x).0
unfolding execute_statement
execute_statement-IsExtended s (create_table t) =
    make_table-IsExtended (any (λ u. eqb u.name t.name) s.tables) s t
execute_statement-IsExtended s (create_index i) = make_index-IsExtended _ _ s i

make_table-ok :
    (there : Bool) (s : Schema) (t : Table)
    → any (λ u. eqb u.name t.name) s.tables ≡ there
    → IsInEffect (make_table there t s).0 (create_table t)
unfolding make_table IsInEffect
make_table-ok true s t h = h
make_table-ok false s t h =
    any-append (λ v. eqb v.name t.name) s.tables t
    ∙ ground (arith, h, string_eq.beq_iff t.name t.name)

make_index-ok :
    (fits there : Bool) (s : Schema) (i : Index)
    → any (λ u. eqb u.name i.name) s.indexes ≡ there
    → (make_index fits there i s).1 ≡ ok tt
    → IsInEffect (make_index fits there i s).0 (create_index i)
unfolding make_index IsInEffect
make_index-ok false there s i h fine = absurd (err≢ok fine)
make_index-ok true true s i h fine = h
make_index-ok true false s i h fine =
    any-append (λ v. eqb v.name i.name) s.indexes i
    ∙ ground (arith, h, string_eq.beq_iff i.name i.name)

execute_statement-ok :
    (s : Schema) (x : Statement)
    → (execute_statement s x).1 ≡ ok tt
    → IsInEffect (execute_statement s x).0 x
unfolding execute_statement
execute_statement-ok s (create_table t) h = make_table-ok _ s t refl
execute_statement-ok s (create_index i) h = make_index-ok _ _ s i refl h

IsExtended-trans : (r s t : Schema) → IsExtended r s → IsExtended s t → IsExtended r t
unfolding IsExtended
IsExtended-trans r s t h k = (λ x. λ p. k.0 x (h.0 x p), k.1 ∙ h.1)

execute_batch-IsExtended : (xs : List Statement) (s : Schema) → IsExtended s (execute_batch xs s).0
unfolding execute_batch
execute_batch-IsExtended xs s =
    for_each-keeps (λ x. λ t. execute_statement t x) (λ t. IsExtended s t)
      (λ x. λ t.
        λ h. IsExtended-trans s t (execute_statement t x).0 h (execute_statement-IsExtended t x))
      xs s (same-IsExtended s)

-- A batch that succeeds leaves what its statements made.
execute_batch-ok :
    (xs : List Statement) (s : Schema)
    → (execute_batch xs s).1 ≡ ok tt
    → All (IsInEffect (execute_batch xs s).0) xs
unfolding execute_batch for_each IsExtended
execute_batch-ok [] s h = tt
execute_batch-ok (x ∷ xs) s h =
    let run = and_then-ok (execute_statement s x) (λ t. execute_batch xs t) h in
    let t = (execute_statement s x).0 in
    let here : IsInEffect (execute_batch xs t).0 x =
      (execute_batch-IsExtended xs t).0 x (execute_statement-ok s x run.0) in
    let rest = execute_batch-ok xs t (ap (λ r. r.1) (sym run.1) ∙ h) in
    let whole : All (IsInEffect (execute_batch xs t).0) (x ∷ xs) = (here, rest) in
    subst (λ r. All (IsInEffect r.0) (x ∷ xs)) (sym run.1) whole

interrupted-state : (e : ProtocolError) (r : Schema × Result (Unit {0})) → (interrupted e r).0 ≡ r.0
unfolding interrupted
interrupted-state e (s, ok _) = refl
interrupted-state e (s, err d) = refl
interrupted-state e (s, panic) = refl

interrupted-err : (e : ProtocolError) (r : Schema × Result (Unit {0})) → (interrupted e r).1 ≢ ok tt
unfolding interrupted
interrupted-err e (s, ok _) h = err≢ok h
interrupted-err e (s, err d) h = err≢ok h
interrupted-err e (s, panic) h = panic≢ok h

pub apply_migration-IsExtended :
    (fault : Option (ℕ × ProtocolError)) (xs : List Statement) (s : Schema)
    → IsExtended s (apply_migration fault xs s).0
unfolding apply_migration
apply_migration-IsExtended none xs s = execute_batch-IsExtended xs s
apply_migration-IsExtended (some (n, e)) xs s =
    rw (interrupted-state e (execute_batch (take n xs) s)) (execute_batch-IsExtended (take n xs) s)

pub apply_migration-ok :
    (fault : Option (ℕ × ProtocolError)) (xs : List Statement) (s : Schema)
    → (apply_migration fault xs s).1 ≡ ok tt
    → All (IsInEffect (apply_migration fault xs s).0) xs
unfolding apply_migration
apply_migration-ok none xs s h = execute_batch-ok xs s h
apply_migration-ok (some (n, e)) xs s h = absurd (interrupted-err e (execute_batch (take n xs) s) h)
