-- ===== src/Registry/Checks.antt =====
-- What a registration and a health check of desktop/protocol/src/registry.rs do.
use bit_drive.Prelude.{
  ℕ, ◌≡◌, inl, inr, ◌∙◌, refl, String, Bool, true, false, Bool-cases, Option, none, some, List, [],
  ◌∷◌, any, none≢some, some-injective, if◌then◌else◌,
}
use bit_drive.Prelude.Eq.{eqb, string_eq}
use bit_drive.Prelude.Map.{Map, lookup, lookup-insert}
use bit_drive.Registry.{RegisteredService, ServiceRegistry}
use bit_drive.Registry.Health.{
  option_map, is_overdue, overdue, mark, mark_found, mark_unhealthy, check_health,
}

abbrev contains : String → List String → Bool
contains id ids = any (λ x. eqb x id) ids

-- A service after its mark, if its identifier is among those to mark.
abbrev marked : Bool → Option RegisteredService → Option RegisteredService
marked hit found = if hit then option_map mark found else found

marked_twice :
    (hit : Bool) (found : Option RegisteredService)
    → marked hit (option_map mark found) ≡ option_map mark found
unfolding mark
marked_twice true none = refl
marked_twice true (some s) = refl
marked_twice false found = refl

lookup-mark_found :
    (r : ServiceRegistry) (id j : String) (found : Option RegisteredService)
    → lookup id r.services ≡ found
    → lookup j (mark_found r id found).services ≡ marked (eqb id j) (lookup j r.services)
unfolding mark_found
lookup-mark_found r id j none e = elim (Bool-cases (eqb id j)) [
  | inr other ↦ rw other refl
  | inl same ↦ rw same (rw (← (string_eq.beq_iff id j).0 same, e) refl)
]
lookup-mark_found r id j (some s) e =
    lookup-insert id j (mark s) r.services ∙ elim (Bool-cases (eqb id j)) [
      | inr other ↦ rw other refl
      | inl same ↦ rw same (rw (← (string_eq.beq_iff id j).0 same, e) refl)
    ]

lookup-mark_unhealthy :
    (r : ServiceRegistry) (ids : List String) (j : String)
    → lookup j (mark_unhealthy r ids).services ≡ marked (contains j ids) (lookup j r.services)
unfolding mark_unhealthy
lookup-mark_unhealthy r [] j = refl
lookup-mark_unhealthy r (id ∷ ids) j =
    let here = lookup-mark_found r id j (lookup id r.services) refl in
    lookup-mark_unhealthy (mark_found r id (lookup id r.services)) ids j
    ∙ elim (Bool-cases (eqb id j)) [
      | inr other ↦ rw (here, other) refl
      | inl same ↦ rw (here, same) (marked_twice (contains j ids) (lookup j r.services))
    ]

-- A service that is overdue is reported.
overdue_reported :
    (now timeout : ℕ) (m : Map String RegisteredService) (j : String) (s : RegisteredService)
    → lookup j m ≡ some s
    → is_overdue now timeout s ≡ true
    → contains j (overdue now timeout m) ≡ true
unfolding lookup overdue
overdue_reported now timeout [] j s h late = absurd (none≢some h)
overdue_reported now timeout ((id, t) ∷ rest) j s h late = elim (Bool-cases (eqb id j)) [
  | inl same ↦ let t_eq : t ≡ s = some-injective (rw same at h) in rw (t_eq, late, same) refl
  | inr other ↦
      let later = overdue_reported now timeout rest j s (rw other at h) late in
      elim (Bool-cases (is_overdue now timeout t)) [
        | inl e ↦ rw (e, other) later
        | inr e ↦ rw e later
      ]
]

-- A health check marks exactly the services that it reports: those it leads to as unhealthy
-- afterwards, all others as they were. Every service that was healthy and whose last heartbeat is
-- longer ago than the timeout is among the reported ones.
pub check_health_lem :
    (r : ServiceRegistry) (now timeout : ℕ) (j : String)
    → let (after, reported) = check_health r now timeout in
      (lookup j after.services ≡ (
        if any (λ id. eqb id j) reported
        then option_map mark (lookup j r.services)
        else lookup j r.services))
      × ((s : RegisteredService)
          → lookup j r.services ≡ some s
          → is_overdue now timeout s ≡ true
          → any (λ id. eqb id j) reported ≡ true)
unfolding check_health
check_health_lem r now timeout j = (
  lookup-mark_unhealthy r (overdue now timeout r.services) j,
  overdue_reported now timeout r.services j,
)
