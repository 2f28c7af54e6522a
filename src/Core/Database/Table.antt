-- ===== src/Core/Database/Table.antt =====
-- Tables as lists of rows, and the SQL statements of desktop/core/src/database.rs on them, over the
-- column that is the primary key.
use bit_drive.Prelude.{
  ◌≡◌, ◌∙◌, sym, ap, refl, Bool, false, ◌||◌, Option, none, some, List, [], ◌∷◌, if◌then◌else◌,
  arith, Bool-cases, inl, inr, none≢some, some-injective,
}
use bit_drive.Prelude.Eq.{Eq, eqb}
use bit_drive.Prelude.Keys.{elem, IsUnique}

-- `SELECT .. WHERE p`, `DELETE .. WHERE p`
unfoldable pub select_where {ℓ} : {R : Type ℓ} → (R → Bool) → List R → List R
select_where p [] = []
select_where p (r ∷ rs) = let rest = select_where p rs in if p r then r ∷ rest else rest

unfoldable pub delete_where {ℓ} : {R : Type ℓ} → (R → Bool) → List R → List R
delete_where p [] = []
delete_where p (r ∷ rs) = let rest = delete_where p rs in if p r then rest else r ∷ rest

-- The row that an upsert writes.
abbrev pub upserted {ℓ} : {R : Type ℓ} → (R → R) → R → Option R → R
upserted f new none = new
upserted f new (some r) = f r

-- What is left of a row under `p`.
abbrev pub spared {ℓ} : {R : Type ℓ} → (R → Bool) → Option R → Option R
spared p none = none
spared p (some r) = if p r then none else some r

module _ {ℓ κ} {R : Type ℓ} {K : Type κ} ⦃e : Eq K⦄ (key : R → K) where
  -- `SELECT .. WHERE key = k`, read as at most one row
  unfoldable pub find_row : K → List R → Option R
  find_row k [] = none
  find_row k (r ∷ rs) = let rest = find_row k rs in if eqb (key r) k then some r else rest

  unfoldable pub key_column : List R → List K
  key_column [] = []
  key_column (r ∷ rs) = key r ∷ key_column rs

  -- `UPDATE .. SET f WHERE key = k`
  unfoldable pub update_row : K → (R → R) → List R → List R
  update_row k f [] = []
  update_row k f (r ∷ rs) =
      let rest = update_row k f rs in if eqb (key r) k then f r ∷ rest else r ∷ rest

  -- `INSERT .. ON CONFLICT(key) DO UPDATE SET f`
  unfoldable pub upsert_row : K → (R → R) → R → List R → List R
  upsert_row k f new [] = new ∷ []
  upsert_row k f new (r ∷ rs) =
      let rest = upsert_row k f new rs in if eqb (key r) k then f r ∷ rs else r ∷ rest

  pub find_row-upsert_row :
      (k j : K) (f : R → R) (new : R) (rs : List R)
      → ((r : R) → key (f r) ≡ key r)
      → key new ≡ k
      → find_row j (upsert_row k f new rs)
        ≡ (if eqb k j then some (upserted f new (find_row k rs)) else find_row j rs)
  unfolding find_row upsert_row
  find_row-upsert_row k j f new [] same here = rw here refl
  find_row-upsert_row k j f new (r ∷ rs) same here = ground (
    arith,
    e.beq_iff k j,
    e.beq_iff (key r) k,
    e.beq_iff (key r) j,
    e.beq_iff (key (f r)) j,
    same r,
    find_row-upsert_row k j f new rs same here,
  )

  pub elem-upsert_row :
      (k j : K) (f : R → R) (new : R) (rs : List R)
      → ((r : R) → key (f r) ≡ key r)
      → key new ≡ k
      → elem j (key_column (upsert_row k f new rs)) ≡ (eqb k j || elem j (key_column rs))
  unfolding key_column upsert_row
  elem-upsert_row k j f new [] same here = rw here refl
  elem-upsert_row k j f new (r ∷ rs) same here = ground (
    arith,
    e.beq_iff k j,
    e.beq_iff (key r) k,
    e.beq_iff (key r) j,
    e.beq_iff (key (f r)) j,
    same r,
    elem-upsert_row k j f new rs same here,
  )

  pub upsert_row-IsUnique :
      (k : K) (f : R → R) (new : R) (rs : List R)
      → ((r : R) → key (f r) ≡ key r)
      → key new ≡ k
      → IsUnique (key_column rs)
      → IsUnique (key_column (upsert_row k f new rs))
  unfolding key_column upsert_row IsUnique
  upsert_row-IsUnique k f new [] same here u = (refl, tt)
  upsert_row-IsUnique k f new (r ∷ rs) same here u = elim (Bool-cases (eqb (key r) k)) [
    | inl hit ↦ rw (hit, same r) u
    | inr other ↦
        let away : eqb k (key r) ≡ false =
          ground (arith, e.beq_iff (key r) k, e.beq_iff k (key r)) in
        let rest = elem-upsert_row k (key r) f new rs same here in
        rw other ((rw away at rest) ∙ u.0, upsert_row-IsUnique k f new rs same here u.1)
  ]

  elem-delete_where :
      (p : R → Bool) (j : K) (rs : List R)
      → elem j (key_column rs) ≡ false
      → elem j (key_column (delete_where p rs)) ≡ false
  unfolding key_column delete_where
  elem-delete_where p j [] h = refl
  elem-delete_where p j (r ∷ rs) h = ground (arith, elem-delete_where p j rs)

  pub delete_where-IsUnique :
      (p : R → Bool) (rs : List R)
      → IsUnique (key_column rs)
      → IsUnique (key_column (delete_where p rs))
  unfolding key_column delete_where IsUnique
  delete_where-IsUnique p [] u = tt
  delete_where-IsUnique p (r ∷ rs) u = elim (Bool-cases (p r)) [
    | inl gone ↦ rw gone (delete_where-IsUnique p rs u.1)
    | inr stays ↦ rw stays (elem-delete_where p (key r) rs u.0, delete_where-IsUnique p rs u.1)
  ]

  find_row_away : (k : K) (rs : List R) → elem k (key_column rs) ≡ false → find_row k rs ≡ none
  unfolding key_column find_row
  find_row_away k [] h = refl
  find_row_away k (r ∷ rs) h = ground (arith, find_row_away k rs)

  pub find_row-delete_where :
      (p : R → Bool) (j : K) (rs : List R)
      → IsUnique (key_column rs)
      → find_row j (delete_where p rs) ≡ spared p (find_row j rs)
  unfolding key_column delete_where IsUnique find_row
  find_row-delete_where p j [] u = refl
  find_row-delete_where p j (r ∷ rs) u =
      let rest = find_row-delete_where p j rs u.1 in
      elim (Bool-cases (eqb (key r) j)) [
        | inl hit ↦
            let gone : find_row j rs ≡ none =
              find_row_away j rs (rw (← (e.beq_iff (key r) j).0 hit) u.0) in
            ground (arith, rest, gone, hit)
        | inr other ↦ ground (arith, rest, other)
      ]

  pub find_row-key : (k : K) (rs : List R) (r : R) → find_row k rs ≡ some r → key r ≡ k
  unfolding find_row
  find_row-key k [] r h = absurd (none≢some h)
  find_row-key k (s ∷ rs) r h = elim (Bool-cases (eqb (key s) k)) [
    | inl hit ↦
        let same : some s ≡ some r = rw hit at h in
        ap key (sym (some-injective same)) ∙ (e.beq_iff (key s) k).0 hit
    | inr other ↦ find_row-key k rs r (rw other at h)
  ]
