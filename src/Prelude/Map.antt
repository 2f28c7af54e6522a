-- ===== src/Prelude/Map.antt =====
-- `HashMap` as an association list. The order of the list stands for the map's iteration order,
-- which the program never relies on; a key is stored once.
use bit_drive.Prelude.{
  ◌≡◌, ◌≢◌, refl, Bool, true, false, Option, none, some, List, [], ◌∷◌, arith, if◌then◌else◌, sym,
  ◌∙◌, inl, inr, Bool-cases, some-injective, none≢some,
}
use bit_drive.Prelude.Eq.{Eq, eqb}

abbrev pub Map {ℓ κ} : Type ℓ → Type κ → Type (ℓ ⊔ κ)
Map K V = List (K × V)

pub eqb_refl {ℓ} : {K : Type ℓ} ⦃e : Eq K⦄ (k : K) → eqb k k ≡ true
eqb_refl ⦃e⦄ k = (e.beq_iff k k).1 refl

module _ {ℓ κ} {K : Type ℓ} {V : Type κ} ⦃e : Eq K⦄ where
  unfoldable pub lookup : K → Map K V → Option V
  lookup k [] = none
  lookup k ((j, v) ∷ m) = if eqb j k then some v else lookup k m

  unfoldable pub insert : K → V → Map K V → Map K V
  insert k v [] = (k, v) ∷ []
  insert k v ((j, w) ∷ m) = if eqb j k then (k, v) ∷ m else (j, w) ∷ insert k v m

  unfoldable pub remove : K → Map K V → Map K V
  remove k [] = []
  remove k ((j, v) ∷ m) = let rest = remove k m in if eqb j k then rest else (j, v) ∷ rest

  pub lookup-insert :
      (k j : K) (v : V) (m : Map K V)
      → lookup j (insert k v m) ≡ (if eqb k j then some v else lookup j m)
  unfolding lookup insert
  lookup-insert k j v [] = refl
  lookup-insert k j v ((i, w) ∷ m) =
      ground (arith, e.beq_iff k j, e.beq_iff i k, e.beq_iff i j, lookup-insert k j v m)

  pub lookup-insert_ne :
      (k j : K) (v : V) (m : Map K V) → j ≢ k → lookup j (insert k v m) ≡ lookup j m
  lookup-insert_ne k j v m ne = ground (arith, e.beq_iff k j, lookup-insert k j v m)

  pub lookup-insert_self : (k : K) (v : V) (m : Map K V) → lookup k (insert k v m) ≡ some v
  lookup-insert_self k v m = lookup-insert k k v m ∙ rw (eqb_refl k) refl

  pub lookup-remove :
      (k j : K) (m : Map K V) → lookup j (remove k m) ≡ (if eqb k j then none else lookup j m)
  unfolding lookup remove
  lookup-remove k j [] = ground arith
  lookup-remove k j ((i, w) ∷ m) =
      ground (arith, e.beq_iff k j, e.beq_iff i k, e.beq_iff i j, lookup-remove k j m)

module _ {ℓ κ} {K : Type ℓ} {V : Type κ} ⦃e : Eq K⦄ where
  -- `contains_key`
  abbrev pub contains_key : K → Map K V → Bool
  contains_key k m = elim (lookup k m) [ none ↦ false | some v ↦ true ]

-- What holds of each entry that a map leads to.
module _ {ℓ κ μ} {K : Type ℓ} {V : Type κ} ⦃e : Eq K⦄ where
  unfoldable pub Everywhere : (K → V → Type μ) → Map K V → Type (ℓ ⊔ κ ⊔ μ)
  Everywhere P m = (k : K) (v : V) → lookup k m ≡ some v → P k v

  pub insert-Everywhere :
      (P : K → V → Type μ) (m : Map K V) (k : K) (v : V)
      → Everywhere P m
      → P k v
      → Everywhere P (insert k v m)
  unfolding Everywhere
  insert-Everywhere P m k v all here j w h =
      let found = sym (lookup-insert k j v m) ∙ h in
      elim (Bool-cases (eqb k j)) [
        | inl same ↦
            let v_eq : some v ≡ some w = rw same at found in
            rw (← (e.beq_iff k j).0 same, ← some-injective v_eq) here
        | inr other ↦ all j w (rw other at found)
      ]

  pub remove-Everywhere :
      (P : K → V → Type μ) (m : Map K V) (k : K) → Everywhere P m → Everywhere P (remove k m)
  unfolding Everywhere
  remove-Everywhere P m k all j w h =
      let found = sym (lookup-remove k j m) ∙ h in
      elim (Bool-cases (eqb k j)) [
        | inl same ↦ absurd (none≢some (rw same at found))
        | inr other ↦ all j w (rw other at found)
      ]

  pub nil-Everywhere : (P : K → V → Type μ) → Everywhere P []
  unfolding Everywhere lookup
  nil-Everywhere P k v h = absurd (none≢some h)
