-- ===== src/Capability/Versions.antt =====
-- The versions that two peers of desktop/protocol/src/capability.rs arrive at.
use bit_drive.Prelude.{
  ℕ, min, String, Option, none, some, List, [], ◌∷◌, ◌==◌, ◌≡◌, refl, ap, sym, ◌∙◌, arith,
  Bool-cases, inl, inr, if◌then◌else◌, none≢some,
}
use bit_drive.Prelude.Eq.{eqb, string_eq}
use bit_drive.Prelude.Map.{eqb_refl}
use bit_drive.Errors.{Result, ok, err, >>=-ok, ok-injective, err≢ok, panic, panic≢ok}
use bit_drive.Pb.Service.{ServiceCapability, CapabilitySet, NegotiatedCapability}
use bit_drive.Capability.{
  CapabilityNegotiator, find_capability, negotiate_single, unavailable, negotiate_found,
  negotiate_each, check_required, agree, keep, negotiate, find_version, get_version,
}

-- No identifier is advertised twice.
unfoldable pub IsDistinct : List ServiceCapability → Type 0
IsDistinct [] = Unit
IsDistinct (c ∷ cs) = (find_capability c.service_id cs ≡ none) × IsDistinct cs

-- The smaller of the two versions, where both sides advertise the service and neither has version 0.
unfoldable pub common_version : Option ServiceCapability → Option ServiceCapability → Option ℕ
common_version (some a) (some b) =
    let version = min a.version b.version in if version == 0 then none else some version
common_version (some a) none = none
common_version none b = none

common_version_comm : (a b : Option ServiceCapability) → common_version a b ≡ common_version b a
unfolding common_version
common_version_comm none none = refl
common_version_comm none (some b) = refl
common_version_comm (some a) none = refl
common_version_comm (some a) (some b) = ground arith

common_version-none : (a : Option ServiceCapability) → common_version a none ≡ none
unfolding common_version
common_version-none none = refl
common_version-none (some a) = refl

find_capability-id :
    (id : String) (cs : List ServiceCapability) (c : ServiceCapability)
    → find_capability id cs ≡ some c
    → c.service_id ≡ id
unfolding find_capability
find_capability-id id [] c h = absurd (none≢some h)
find_capability-id id (x ∷ cs) c h =
    ground (arith, string_eq.beq_iff x.service_id id, find_capability-id id cs c)

-- The version that one entry of the result offers.
abbrev offered_version : NegotiatedCapability → Option ℕ
offered_version n = if n.available then some n.negotiated_version else none

negotiate_found_lem :
    (found : Option ServiceCapability) (r : ServiceCapability) (n : NegotiatedCapability)
    → ((c : ServiceCapability) → found ≡ some c → c.service_id ≡ r.service_id)
    → negotiate_found found r ≡ ok n
    → (n.service_id ≡ r.service_id) × (offered_version n ≡ common_version found (some r))
unfolding negotiate_found negotiate_single common_version unavailable
negotiate_found_lem none r n id h = elim (Bool-cases r.required) [
  | inl e ↦ absurd (err≢ok (rw e at h))
  | inr e ↦ rw (← ok-injective (rw e at h)) (refl, refl)
]
negotiate_found_lem (some c) r n id h =
    rw (← ok-injective h) (elim (Bool-cases (min c.version r.version == 0)) [
      | inl e ↦ rw e (id c refl, refl)
      | inr e ↦ rw e (id c refl, refl)
    ])

-- A service that is not among the remote ones is not offered.
find_version-absent :
    (local remote : List ServiceCapability) (ns : List NegotiatedCapability) (s : String)
    → negotiate_each local remote ≡ ok ns
    → find_capability s remote ≡ none
    → find_version s ns ≡ none
unfolding negotiate_each find_capability find_version
find_version-absent local [] ns s h e = rw (← ok-injective h) refl
find_version-absent local (r ∷ rs) ns s h e =
    let found = find_capability r.service_id local in
    let (n, n_ok, h1) = >>=-ok (negotiate_found found r) _ ns h in
    let (more, more_ok, h2) = >>=-ok (negotiate_each local rs) _ ns h1 in
    let (n_id, offers) =
      negotiate_found_lem found r n (find_capability-id r.service_id local) n_ok in
    elim (Bool-cases (eqb r.service_id s)) [
      | inl same ↦ absurd (none≢some (sym (rw same at e)))
      | inr other ↦
          rw (← ok-injective h2, n_id, other)
            (find_version-absent local rs more s more_ok (rw other at e))
    ]

find_version-offered :
    (n : NegotiatedCapability) (more : List NegotiatedCapability) (s : String)
    → n.service_id ≡ s
    → find_version s more ≡ none
    → find_version s (n ∷ more) ≡ offered_version n
unfolding find_version
find_version-offered n more s e absent =
    rw (e, eqb_refl s) (elim (Bool-cases n.available) [ inl a ↦ rw a refl | inr a ↦ rw a absent ])

find_version-negotiate_each :
    (local remote : List ServiceCapability) (ns : List NegotiatedCapability) (s : String)
    → IsDistinct remote
    → negotiate_each local remote ≡ ok ns
    → find_version s ns ≡ common_version (find_capability s local) (find_capability s remote)
unfolding negotiate_each find_capability find_version IsDistinct
find_version-negotiate_each local [] ns s d h =
    rw (← ok-injective h) (sym (common_version-none (find_capability s local)))
find_version-negotiate_each local (r ∷ rs) ns s (fresh, d) h =
    let found = find_capability r.service_id local in
    let (n, n_ok, h1) = >>=-ok (negotiate_found found r) _ ns h in
    let (more, more_ok, h2) = >>=-ok (negotiate_each local rs) _ ns h1 in
    let (n_id, offers) =
      negotiate_found_lem found r n (find_capability-id r.service_id local) n_ok in
    elim (Bool-cases (eqb r.service_id s)) [
      | inl same ↦
          let s_eq : r.service_id ≡ s = (string_eq.beq_iff r.service_id s).0 same in
          let more_none = find_version-absent local rs more r.service_id more_ok fresh in
          rw (← s_eq, ← ok-injective h2, eqb_refl r.service_id)
            (find_version-offered n more r.service_id n_id more_none ∙ offers)
      | inr other ↦
          rw (← ok-injective h2, n_id, other)
            (find_version-negotiate_each local rs more s d more_ok)
    ]

pub keep-ok :
    (n n' : CapabilityNegotiator) (r : Result (List NegotiatedCapability))
    (ns : List NegotiatedCapability)
    → keep n r ≡ (n', ok ns)
    → (r ≡ ok ns) × (n' ≡ record n { negotiated = ns })
unfolding keep
keep-ok n n' (ok xs) ns h =
    let e = ok-injective (ap (λ p. p.1) h) in
    (ap ok e, sym (ap (λ p. p.0) h) ∙ ap (λ x. record n { negotiated = x }) e)
keep-ok n n' (err e) ns h = absurd (err≢ok (ap (λ p. p.1) h))
keep-ok n n' panic ns h = absurd (panic≢ok (ap (λ p. p.1) h))

-- A successful negotiation, where the remote side advertises no service twice: the version recorded
-- for a service is the smaller of the two advertised ones, and there is none where one side does not
-- advertise the service or has version 0.
pub get_version-negotiate :
    (n n' : CapabilityNegotiator) (remote : CapabilitySet) (ns : List NegotiatedCapability)
    (s : String)
    → IsDistinct remote.capabilities
    → negotiate n remote ≡ (n', ok ns)
    → get_version n' s
      ≡ common_version
          (find_capability s n.local_capabilities.capabilities)
          (find_capability s remote.capabilities)
unfolding negotiate agree get_version
get_version-negotiate n n' remote ns s d h =
    let local = n.local_capabilities.capabilities in
    let (agreed, n_eq) = keep-ok n n' (agree local remote.capabilities) ns h in
    let (found, each, rest) = >>=-ok (negotiate_each local remote.capabilities) _ ns agreed in
    let (checked, check, same) = >>=-ok (check_required local found) _ ns rest in
    rw (n_eq, ← ok-injective same)
      (find_version-negotiate_each local remote.capabilities found s d each)

-- Two peers that advertise no service twice, and that both succeed in negotiating with what the other
-- one advertises, record the same version for every service.
pub negotiate_agree :
    (a a' b b' : CapabilityNegotiator) (xs ys : List NegotiatedCapability) (s : String)
    → IsDistinct a.local_capabilities.capabilities
    → IsDistinct b.local_capabilities.capabilities
    → negotiate a b.local_capabilities ≡ (a', ok xs)
    → negotiate b a.local_capabilities ≡ (b', ok ys)
    → get_version a' s ≡ get_version b' s
negotiate_agree a a' b b' xs ys s da db ha hb =
    get_version-negotiate a a' b.local_capabilities xs s db ha
    ∙ common_version_comm (find_capability s a.local_capabilities.capabilities)
        (find_capability s b.local_capabilities.capabilities)
    ∙ sym (get_version-negotiate b b' a.local_capabilities ys s da hb)
