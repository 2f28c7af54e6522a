-- ===== src/Prelude/Keys.antt =====
-- The keys of a map, and maps that store a key once.
use bit_drive.Prelude.{
  ◌≡◌, ◌∙◌, sym, refl, Bool, false, ◌||◌, none, some, List, [], ◌∷◌, arith, if◌then◌else◌,
  Bool-cases, inl, inr, none≢some,
}
use bit_drive.Prelude.Eq.{Eq, eqb}
use bit_drive.Prelude.Map.{
  Map, lookup, insert, remove, contains_key, eqb_refl, lookup-insert, lookup-remove,
}

module _ {ℓ} {K : Type ℓ} ⦃e : Eq K⦄ where
  abbrev pub elem : K → List K → Bool
  elem k [] = false
  elem k (j ∷ ks) = eqb j k || elem k ks

  unfoldable pub IsUnique : List K → Type 0
  IsUnique [] = Unit
  IsUnique (k ∷ ks) = (elem k ks ≡ false) × IsUnique ks

module _ {ℓ κ} {K : Type ℓ} {V : Type κ} ⦃e : Eq K⦄ where
  -- `keys()`
  abbrev pub keys : Map K V → List K
  keys [] = []
  keys ((k, v) ∷ m) = k ∷ keys m

  pub contains_key-elem : (k : K) (m : Map K V) → contains_key k m ≡ elem k (keys m)
  unfolding lookup
  contains_key-elem k [] = refl
  contains_key-elem k ((j, v) ∷ m) = ground (arith, contains_key-elem k m)

  pub lookup-elem : (k : K) (m : Map K V) → elem k (keys m) ≡ false → lookup k m ≡ none
  unfolding lookup
  lookup-elem k [] h = refl
  lookup-elem k ((j, v) ∷ m) h = ground (arith, lookup-elem k m)

  pub elem-insert :
      (k j : K) (v : V) (m : Map K V) → elem j (keys (insert k v m)) ≡ (eqb k j || elem j (keys m))
  unfolding insert
  elem-insert k j v [] = refl
  elem-insert k j v ((i, w) ∷ m) =
      ground (arith, e.beq_iff k j, e.beq_iff i k, e.beq_iff i j, elem-insert k j v m)

  pub elem-remove :
      (k j : K) (m : Map K V)
      → elem j (keys (remove k m)) ≡ (if eqb k j then false else elem j (keys m))
  unfolding remove
  elem-remove k j [] = ground arith
  elem-remove k j ((i, w) ∷ m) =
      ground (arith, e.beq_iff k j, e.beq_iff i k, e.beq_iff i j, elem-remove k j m)

  pub insert-IsUnique :
      (k : K) (v : V) (m : Map K V) → IsUnique (keys m) → IsUnique (keys (insert k v m))
  unfolding insert IsUnique
  insert-IsUnique k v [] h = (refl, tt)
  insert-IsUnique k v ((i, w) ∷ m) h = elim (Bool-cases (eqb i k)) [
    | inl same ↦ rw (same, ← (e.beq_iff i k).0 same) h
    | inr other ↦
        let away : eqb k i ≡ false = ground (arith, e.beq_iff i k, e.beq_iff k i) in
        rw other (rw (elem-insert k i v m, away) h.0, insert-IsUnique k v m h.1)
  ]

  pub remove-IsUnique : (k : K) (m : Map K V) → IsUnique (keys m) → IsUnique (keys (remove k m))
  unfolding remove IsUnique
  remove-IsUnique k [] h = tt
  remove-IsUnique k ((i, w) ∷ m) h = elim (Bool-cases (eqb i k)) [
    | inl same ↦ rw same (remove-IsUnique k m h.1)
    | inr other ↦
        let away : eqb k i ≡ false = ground (arith, e.beq_iff i k, e.beq_iff k i) in
        rw other (rw (elem-remove k i m, away) h.0, remove-IsUnique k m h.1)
  ]

  -- A map that leads nowhere is empty.
  pub lookup-none : (m : Map K V) → ((k : K) → lookup k m ≡ none) → m ≡ []
  unfolding lookup
  lookup-none [] h = refl
  lookup-none ((k, v) ∷ m) h =
      let found : lookup k ((k, v) ∷ m) ≡ some v = rw (eqb_refl k) refl in
      absurd (none≢some (sym (h k) ∙ found))

  pub lookup-insert_removed :
      (k j : K) (v : V) (m : Map K V)
      → lookup j (insert k v (remove k m)) ≡ (if eqb k j then some v else lookup j m)
  lookup-insert_removed k j v m = elim (Bool-cases (eqb k j)) [
    | inl same ↦ lookup-insert k j v (remove k m) ∙ rw same refl
    | inr other ↦ lookup-insert k j v (remove k m) ∙ rw other (lookup-remove k j m ∙ rw other refl)
  ]
