-- ===== src/Capability/Outcome.antt =====
-- Success and failure of a negotiation of desktop/protocol/src/capability.rs.
use bit_drive.Prelude.{
  true, false, Option, none, some, List, [], ◌∷◌, any, ◌≡◌, refl, ap, sym, ◌∙◌, Bool-cases, inl,
  inr, All, ◌⊎◌, true≢false,
}
use bit_drive.Prelude.Eq.{string_eq}
use bit_drive.Errors.{
  Result, ok, err, panic, >>=-ok, >>=-err, err-injective, err≢panic, ok-injective, err≢ok,
  required_capability_missing, ProtocolError,
}
use bit_drive.Pb.Service.{ServiceCapability, CapabilitySet, NegotiatedCapability}
use bit_drive.Capability.{
  CapabilityNegotiator, find_capability, negotiate_found, negotiate_each, check_required, agree,
  keep, negotiate, is_available, is_offered,
}
use mathlib.Core.List.{Mem, mem-cons_self, mem-cons_of_mem}
use bit_drive.Capability.Versions.{keep-ok}

check_required-ok :
    (cs : List ServiceCapability) (ns : List NegotiatedCapability)
    → check_required cs ns ≡ ok tt
    → All (λ c. c.required ≡ true → any (is_offered c.service_id) ns ≡ true) cs
unfolding check_required
check_required-ok [] ns h = tt
check_required-ok (c ∷ cs) ns h = elim (Bool-cases c.required) [
  | inr e ↦ (λ req. absurd (true≢false (sym req ∙ e)), check_required-ok cs ns (rw e at h))
  | inl e ↦ elim (Bool-cases (any (is_offered c.service_id) ns)) [
    | inl offered ↦ (λ req. offered, check_required-ok cs ns (rw (e, offered) at h))
    | inr missing ↦ absurd (err≢ok (rw (e, missing) at h))
  ]
]

-- After a negotiation that succeeds every capability that the local side requires is available, and
-- the result that is returned is the one that is recorded.
pub negotiate_required :
    (n n' : CapabilityNegotiator) (remote : CapabilitySet) (ns : List NegotiatedCapability)
    → negotiate n remote ≡ (n', ok ns)
    → (n'.negotiated ≡ ns)
      × All
          (λ c. c.required ≡ true → is_available n' c.service_id ≡ true)
          n.local_capabilities.capabilities
unfolding negotiate agree is_available
negotiate_required n n' remote ns h =
    let local = n.local_capabilities.capabilities in
    let (agreed, n_eq) = keep-ok n n' (agree local remote.capabilities) ns h in
    let (found, each, rest) = >>=-ok (negotiate_each local remote.capabilities) _ ns agreed in
    let (checked, check, same) = >>=-ok (check_required local found) _ ns rest in
    rw (n_eq, ← ok-injective same) (refl, check_required-ok local found check)

-- A required capability of the list that stands for the error and has the property.
IsCulprit : List ServiceCapability → ProtocolError → (ServiceCapability → Type 0) → Type 0
IsCulprit cs e P =
    (c : ServiceCapability) × Mem c cs
    × (c.required ≡ true)
    × (e ≡ required_capability_missing c.service_id)
    × P c

later-IsCulprit :
    (c : ServiceCapability) (cs : List ServiceCapability) (e : ProtocolError)
    (P : ServiceCapability → Type 0)
    → IsCulprit cs e P
    → IsCulprit (c ∷ cs) e P
unfolding IsCulprit
later-IsCulprit c cs e P (x, mem, q, x_eq, has) = (x, mem-cons_of_mem c mem, q, x_eq, has)

check_required-fail :
    (cs : List ServiceCapability) (ns : List NegotiatedCapability) (e : ProtocolError)
    → check_required cs ns ≡ err e
    → IsCulprit cs e (λ c. any (is_offered c.service_id) ns ≡ false)
unfolding check_required IsCulprit
check_required-fail [] ns e h = absurd (err≢ok (sym h))
check_required-fail (c ∷ cs) ns e h = elim (Bool-cases c.required) [
  | inr q ↦ later-IsCulprit c cs e _ (check_required-fail cs ns e (rw q at h))
  | inl q ↦ elim (Bool-cases (any (is_offered c.service_id) ns)) [
    | inl offered ↦ later-IsCulprit c cs e _ (check_required-fail cs ns e (rw (q, offered) at h))
    | inr missing ↦ (c, mem-cons_self, q, err-injective (sym (rw (q, missing) at h)), missing)
  ]
]

negotiate_found-fail :
    (found : Option ServiceCapability) (r : ServiceCapability) (e : ProtocolError)
    → negotiate_found found r ≡ err e
    → (r.required ≡ true) × (e ≡ required_capability_missing r.service_id) × (found ≡ none)
unfolding negotiate_found
negotiate_found-fail (some c) r e h = absurd (err≢ok (sym h))
negotiate_found-fail none r e h = elim (Bool-cases r.required) [
  | inl q ↦ (q, err-injective (sym (rw q at h)), refl)
  | inr q ↦ absurd (err≢ok (sym (rw q at h)))
]

negotiate_each-fail :
    (local remote : List ServiceCapability) (e : ProtocolError)
    → negotiate_each local remote ≡ err e
    → IsCulprit remote e (λ c. find_capability c.service_id local ≡ none)
unfolding negotiate_each IsCulprit
negotiate_each-fail local [] e h = absurd (err≢ok (sym h))
negotiate_each-fail local (r ∷ rs) e h =
    elim (>>=-err (negotiate_found (find_capability r.service_id local) r) _ e h) [
      | inl first ↦
          let (q, e_eq, absent) = negotiate_found-fail _ r e first in
          (r, mem-cons_self, q, e_eq, absent)
      | inr (n, n_ok, h1) ↦ elim (>>=-err (negotiate_each local rs) _ e h1) [
        | inl more ↦ later-IsCulprit r rs e _ (negotiate_each-fail local rs e more)
        | inr (ns, ns_ok, h2) ↦ absurd (err≢ok (sym h2))
      ]
    ]

keep-fail :
    (n n' : CapabilityNegotiator) (r : Result (List NegotiatedCapability)) (e : ProtocolError)
    → keep n r ≡ (n', err e)
    → (r ≡ err e) × (n' ≡ n)
unfolding keep
keep-fail n n' (ok xs) e h = absurd (err≢ok (sym (ap (λ p. p.1) h)))
keep-fail n n' (err x) e h = (ap (λ p. p.1) h, sym (ap (λ p. p.0) h))
keep-fail n n' panic e h = absurd (err≢panic (sym (ap (λ p. p.1) h)))

-- A negotiation that fails leaves the negotiator as it was, and its error names a capability that
-- is required: one of the remote side that the local side does not have, or one of the local side.
pub negotiate_fail :
    (n n' : CapabilityNegotiator) (remote : CapabilitySet) (e : ProtocolError)
    → negotiate n remote ≡ (n', err e)
    → (n' ≡ n)
      × ((c : ServiceCapability) × (c.required ≡ true)
          × (e ≡ required_capability_missing c.service_id)
          × ((Mem c remote.capabilities
                × (find_capability c.service_id n.local_capabilities.capabilities ≡ none))
              ⊎ Mem c n.local_capabilities.capabilities))
unfolding negotiate agree IsCulprit
negotiate_fail n n' remote e h =
    let local = n.local_capabilities.capabilities in
    let (failed, n_eq) = keep-fail n n' (agree local remote.capabilities) e h in
    elim (>>=-err (negotiate_each local remote.capabilities) _ e failed) [
      | inl first ↦
          let (c, mem, q, e_eq, absent) = negotiate_each-fail local remote.capabilities e first in
          (n_eq, (c, q, e_eq, inl (mem, absent)))
      | inr (ns, ns_ok, h1) ↦ elim (>>=-err (check_required local ns) _ e h1) [
        | inl second ↦
            let (c, mem, q, e_eq, missing) = check_required-fail local ns e second in
            (n_eq, (c, q, e_eq, inr mem))
        | inr (t, t_ok, h2) ↦ absurd (err≢ok (sym h2))
      ]
    ]
