-- ===== src/Core/Database/Turns.antt =====
-- What one turn of the loop over the migrations leaves (desktop/core/src/database.rs).
use bit_drive.Prelude.{
  All-map, ◌⊎◌, ◌≡◌, ◌∙◌, sym, refl, ℕ, suc, Bool, true, false, ◌||◌, Option, none, some, List, [],
  ◌∷◌, ◌++◌, ◌==◌, arith, Bool-cases, inl, inr, All, ==_iff,
}
use bit_drive.Prelude.Eq.{string_eq}
use bit_drive.Errors.{Result, ok, err, panic, ProtocolError, err≢ok, panic≢ok}
use bit_drive.Loop.{and_then}
use bit_drive.Core.Database.Schema.{Statement, create_table, create_index}
use bit_drive.Core.Database.Migrations.{
  Schema, Faults, apply_migration, is_applied, with_fault, record_version, turn, migrate_one,
}
use bit_drive.Core.Database.InEffect.{
  IsInEffect, any-append, IsExtended, same-IsExtended, apply_migration-IsExtended,
  apply_migration-ok,
}

applied-append :
    (v w now : ℕ) (s : Schema)
    → is_applied v (record s { applied = s.applied ++ (w, now) ∷ [] })
      ≡ (is_applied v s || (w == v))
unfolding is_applied
applied-append v w now s = any-append (λ row. row.0 == v) s.applied (w, now)

applied-same : (v : ℕ) (s t : Schema) → t.applied ≡ s.applied → is_applied v t ≡ is_applied v s
unfolding is_applied
applied-same v s t h = rw h refl

-- `s` leads to `t` by recording version `suc i` at most, and that after all of `m` is in effect.
unfoldable pub IsStep : (i : ℕ) (m : List Statement) (s t : Schema) → Type 0
IsStep i m s t =
    ((x : Statement) → IsInEffect s x → IsInEffect t x)
    × ((j : ℕ)
        → is_applied (suc j) t ≡ true
        → (is_applied (suc j) s ≡ true) ⊎ ((j ≡ i) × All (IsInEffect t) m))
    × ((j : ℕ) → is_applied (suc j) s ≡ true → is_applied (suc j) t ≡ true)

quiet-IsStep : (i : ℕ) (m : List Statement) (s t : Schema) → IsExtended s t → IsStep i m s t
unfolding IsStep IsExtended is_applied
quiet-IsStep i m s t h = (h.0, λ j. λ p. inl (rw (h.1) at p), λ j. λ p. rw (h.1) p)

pub IsStep-applied :
    (i : ℕ) (m : List Statement) (s t : Schema)
    → IsStep i m s t
    → (j : ℕ) → is_applied (suc j) s ≡ true
    → is_applied (suc j) t ≡ true
unfolding IsStep
IsStep-applied i m s t h j p = h.2 j p

recorded-effect :
    (rows : List (ℕ × ℕ)) (t : Schema) (x : Statement)
    → IsInEffect t x
    → IsInEffect (record t { applied = rows }) x
unfolding IsInEffect
recorded-effect rows t (create_table u) h = h
recorded-effect rows t (create_index i) h = h

one_row-IsStep :
    (now i : ℕ) (m : List Statement) (s t : Schema)
    → IsExtended s t
    → All (IsInEffect t) m
    → IsStep i m s (record t { applied = t.applied ++ (suc i, now) ∷ [] })
unfolding IsStep IsExtended
one_row-IsStep now i m s t h all =
    let rows = t.applied ++ (suc i, now) ∷ [] in
    (
      λ x. λ p. recorded-effect rows t x (h.0 x p),
      λ j. λ p. elim (Bool-cases (is_applied (suc j) t)) [
        | inl before ↦ inl (sym (applied-same (suc j) s t h.1) ∙ before)
        | inr fresh ↦
            let row : (suc i == suc j) ≡ true =
              ground (arith, applied-append (suc j) (suc i) now t, p, fresh) in
            inr (
              omega (arith, (==_iff (suc i) (suc j)).0 row),
              All-map (IsInEffect t) _ m (recorded-effect rows t) all,
            )
      ],
      λ j. λ p.
          ground (arith, applied-append (suc j) (suc i) now t, applied-same (suc j) s t h.1, p),
    )

recorded-IsStep :
    (fault : Option ProtocolError) (now i : ℕ) (m : List Statement) (s t : Schema)
    → IsExtended s t
    → All (IsInEffect t) m
    → IsStep i m s (record_version fault now (suc i) t).0
unfolding record_version with_fault
recorded-IsStep (some e) now i m s t h all = quiet-IsStep i m s t h
recorded-IsStep none now i m s t h all = one_row-IsStep now i m s t h all

record_version-ok :
    (fault : Option ProtocolError) (now v : ℕ) (t : Schema)
    → (record_version fault now v t).1 ≡ ok tt
    → is_applied v (record_version fault now v t).0 ≡ true
unfolding record_version with_fault
record_version-ok (some e) now v t h = absurd (err≢ok h)
record_version-ok none now v t h = applied-append v v now t ∙ ground (arith, ==_iff v v)

-- What follows the statements of a migration.
recording-IsStep :
    (fault : Option ProtocolError) (now i : ℕ) (m : List Statement) (s : Schema)
    (run : Schema × Result (Unit {0}))
    → IsExtended s run.0
    → (run.1 ≡ ok tt → All (IsInEffect run.0) m)
    → IsStep i m s (and_then run (λ t. record_version fault now (suc i) t)).0
unfolding and_then
recording-IsStep fault now i m s (t, ok _) h all = recorded-IsStep fault now i m s t h (all refl)
recording-IsStep fault now i m s (t, err e) h all = quiet-IsStep i m s t h
recording-IsStep fault now i m s (t, panic) h all = quiet-IsStep i m s t h

recording-ok :
    (fault : Option ProtocolError) (now v : ℕ) (run : Schema × Result (Unit {0}))
    → (and_then run (λ t. record_version fault now v t)).1 ≡ ok tt
    → is_applied v (and_then run (λ t. record_version fault now v t)).0 ≡ true
unfolding and_then
recording-ok fault now v (t, ok _) h = record_version-ok fault now v t h
recording-ok fault now v (t, err e) h = absurd (err≢ok h)
recording-ok fault now v (t, panic) h = absurd (panic≢ok h)

-- One turn of the loop without a fault of the query.
turn-IsStep :
    (faults : Faults) (now i : ℕ) (m : List Statement) (s : Schema) (done : Bool)
    → is_applied (suc i) s ≡ done
    → let run = turn faults now (suc i) m s done in
      IsStep i m s run.0 × (run.1 ≡ ok tt → is_applied (suc i) run.0 ≡ true)
unfolding turn
turn-IsStep faults now i m s true h = (quiet-IsStep i m s s (same-IsExtended s), λ fine. h)
turn-IsStep faults now i m s false h =
    let run = apply_migration faults.applying m s in
    (
      recording-IsStep faults.recording now i m s run
          (apply_migration-IsExtended faults.applying m s) (apply_migration-ok faults.applying m s),
      recording-ok faults.recording now (suc i) run,
    )

checked-IsStep :
    (fault : Option ProtocolError) (i : ℕ) (m : List Statement) (s : Schema)
    (run : Schema × Result (Unit {0}))
    → IsStep i m s run.0 × (run.1 ≡ ok tt → is_applied (suc i) run.0 ≡ true)
    → IsStep i m s (with_fault fault s run).0
      × ((with_fault fault s run).1 ≡ ok tt → is_applied (suc i) (with_fault fault s run).0 ≡ true)
unfolding with_fault
checked-IsStep none i m s run h = h
checked-IsStep (some e) i m s run h =
    (quiet-IsStep i m s s (same-IsExtended s), λ fine. absurd (err≢ok fine))

pub migrate_one-IsStep :
    (faults : Faults) (now i : ℕ) (m : List Statement) (s : Schema)
    → let run = migrate_one faults now (suc i) m s in
      IsStep i m s run.0 × (run.1 ≡ ok tt → is_applied (suc i) run.0 ≡ true)
unfolding migrate_one
migrate_one-IsStep faults now i m s =
    checked-IsStep faults.checking i m s (turn faults now (suc i) m s (is_applied (suc i) s))
      (turn-IsStep faults now i m s (is_applied (suc i) s) refl)
