-- ===== src/Loop.antt =====
-- Loops of the source over a list, a step that may fail for each element; `?` inside the step
-- ends the loop.
use bit_drive.Prelude.{
  ◌≡◌, ◌∙◌, sym, ap, refl, false, Option, List, [], ◌∷◌, if◌then◌else◌, Bool-cases, inl, inr,
}
use bit_drive.Prelude.Eq.{Eq, eqb, string_eq}
use bit_drive.Prelude.Map.{Map, lookup}
use bit_drive.Prelude.Keys.{elem, IsUnique}
use bit_drive.Errors.{Result, ok, err, panic, err≢ok, panic≢ok}

-- `s?; rest`
unfoldable pub and_then {ℓ} :
    {M : Type ℓ} → M × Result (Unit {0}) → (M → M × Result (Unit {0})) → M × Result (Unit {0})
and_then (m, ok _) rest = rest m
and_then (m, err e) rest = (m, err e)
and_then (m, panic) rest = (m, panic)

unfoldable pub for_each {ℓ κ} :
    {K : Type ℓ} {M : Type κ} → (K → M → M × Result (Unit {0})) → List K → M → M × Result (Unit {0})
unfolding and_then
for_each step [] m = (m, ok tt)
for_each step (k ∷ ks) m = and_then (step k m) (λ n. for_each step ks n)

pub and_then-ok {ℓ} :
    {M : Type ℓ}
    → (s : M × Result (Unit {0})) (rest : M → M × Result (Unit {0})) → (and_then s rest).1 ≡ ok tt
    → (s.1 ≡ ok tt) × (and_then s rest ≡ rest s.0)
unfolding and_then
and_then-ok (m, ok _) rest h = (refl, refl)
and_then-ok (m, err e) rest h = absurd (err≢ok h)
and_then-ok (m, panic) rest h = absurd (panic≢ok h)

and_then_go {ℓ} :
    {M : Type ℓ}
    → (s : M × Result (Unit {0})) (rest : M → M × Result (Unit {0})) → s.1 ≡ ok tt
    → and_then s rest ≡ rest s.0
unfolding and_then
and_then_go (m, ok _) rest h = refl
and_then_go (m, err e) rest h = absurd (err≢ok h)
and_then_go (m, panic) rest h = absurd (panic≢ok h)

-- Steps that all succeed make a loop that succeeds.
pub for_each_ok {ℓ κ} :
    {K : Type ℓ} {M : Type κ}
    → (step : K → M → M × Result (Unit {0})) → ((k : K) (m : M) → (step k m).1 ≡ ok tt)
    → (ks : List K) (m : M) → (for_each step ks m).1 ≡ ok tt
unfolding for_each
for_each_ok step fine [] m = refl
for_each_ok step fine (k ∷ ks) m =
    ap (λ r. r.1) (and_then_go (step k m) (λ n. for_each step ks n) (fine k m))
    ∙ for_each_ok step fine ks (step k m).0

pub and_then-keeps {ℓ μ} :
    {M : Type ℓ}
    → (P : M → Type μ) (s : M × Result (Unit {0})) (rest : M → M × Result (Unit {0})) → P s.0
    → ((n : M) → P n → P (rest n).0)
    → P (and_then s rest).0
unfolding and_then
and_then-keeps P (n, ok _) rest p later = later n p
and_then-keeps P (n, err e) rest p later = p
and_then-keeps P (n, panic) rest p later = p

-- What each step keeps, failing or not, the loop keeps.
pub for_each-keeps {ℓ κ μ} :
    {K : Type ℓ} {M : Type κ}
    → (step : K → M → M × Result (Unit {0})) (P : M → Type μ)
    → ((k : K) (m : M) → P m → P (step k m).0)
    → (ks : List K) (m : M) → P m
    → P (for_each step ks m).0
unfolding for_each
for_each-keeps step P keep [] m h = h
for_each-keeps step P keep (k ∷ ks) m h =
    and_then-keeps P (step k m) (λ n. for_each step ks n) (keep k m h)
      (λ n. for_each-keeps step P keep ks n)

-- Steps that change what stands under their own identifier by `g`, made for identifiers that are all
-- different.
pub for_each-lookup {ℓ κ} :
    {K : Type ℓ} {V : Type κ} ⦃e : Eq K⦄
    → (step : K → Map K V → Map K V × Result (Unit {0})) (g : Option V → Option V)
    → ((k j : K) (m : Map K V)
        → (step k m).1 ≡ ok tt
        → lookup j (step k m).0 ≡ (if eqb k j then g (lookup j m) else lookup j m))
    → (ks : List K) (m : Map K V) → IsUnique ks
    → (for_each step ks m).1 ≡ ok tt
    → (j : K) → lookup j (for_each step ks m).0 ≡ (if elem j ks then g (lookup j m) else lookup j m)
unfolding for_each IsUnique
for_each-lookup ⦃e = e⦄ step g act [] m u h j = refl
for_each-lookup ⦃e = e⦄ step g act (k ∷ ks) m u h j =
    let run = and_then-ok (step k m) (λ n. for_each step ks n) h in
    let here = act k j m run.0 in
    let rest = for_each-lookup step g act ks (step k m).0 u.1 (sym (ap (λ r. r.1) run.1) ∙ h) j in
    elim (Bool-cases (eqb k j)) [
      | inl same ↦
          let late : elem j ks ≡ false = rw (← (e.beq_iff k j).0 same) u.0 in
          rw same (ap (λ r. lookup j r.0) run.1 ∙ rw late at rest ∙ rw same at here)
      | inr other ↦ ap (λ r. lookup j r.0) run.1 ∙ rw other (rw (rw other at here) at rest)
    ]
