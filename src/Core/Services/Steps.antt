-- ===== src/Core/Services/Steps.antt =====
-- The steps of the loops of `ServiceManager` (desktop/core/src/service.rs), one service at a time.
use bit_drive.Prelude.{
  ◌≡◌, ◌≢◌, ◌∙◌, sym, ap, refl, String, ◌∷◌, Option, none, some, if◌then◌else◌, Bool-cases, inl,
  inr,
}
use mathlib.Core.Option.{map as option_map}
use bit_drive.Prelude.Eq.{eqb, string_eq}
use bit_drive.Prelude.Map.{Map, lookup, remove, lookup-remove, eqb_refl}
use bit_drive.Prelude.Keys.{keys, elem, lookup-elem, lookup-insert_removed}
use bit_drive.Errors.{
  Result, ok, err, panic, ProtocolError, err≢ok, panic≢ok, err-injective, err≢panic,
}
use bit_drive.Service.{Service, failed}
use bit_drive.Core.Context.{ServiceContext, ServiceRequest, ServiceResponse, ServiceEvent}
use bit_drive.Core.Services.{
  Ending, returns, deadlock, go_on, after_method, advance_found, advance, advance_all, stop_answer,
  stop_found, heard, broadcast_found,
}

module _ {S : Type 0} (impl : Service S ServiceContext ServiceRequest ServiceResponse ServiceEvent)
    (display : ProtocolError → String) where
  -- What a step does to what stands under `j`, when the service that it found is replaced by `g`.
  pub replaced :
      (g : Option S → Option S) (k j : String) (m : Map String S) (found : Option S)
      (after : Map String S)
      → lookup k m ≡ found
      → lookup j after ≡ (if eqb k j then g found else lookup j m)
      → lookup j after ≡ (if eqb k j then g (lookup j m) else lookup j m)
  replaced g k j m found after q h = elim (Bool-cases (eqb k j)) [
    | inl same ↦
        let here : lookup j m ≡ found = rw ((string_eq.beq_iff k j).0 same) at q in
        rw same (rw same at h ∙ ap g (sym here))
    | inr other ↦ rw other (rw other at h)
  ]

  pub absent :
      (g : Option S → Option S) (k j : String) (m : Map String S)
      → g none ≡ none
      → lookup k m ≡ none
      → lookup j m ≡ (if eqb k j then g none else lookup j m)
  absent g k j m gone q = elim (Bool-cases (eqb k j)) [
    | inl same ↦ rw same ((rw ((string_eq.beq_iff k j).0 same) at q) ∙ sym gone)
    | inr other ↦ rw other refl
  ]

  -- After a service was found the loop does not go on.
  go_on-after_method :
      (what id : String) (others : Map String S) (done : S × Result (Unit {0}))
      (rest : Map String S → Map String S × Ending)
      → go_on (after_method impl display what id others done) rest
        ≡ after_method impl display what id others done
  unfolding go_on after_method
  go_on-after_method what id others (s, ok _) rest = refl
  go_on-after_method what id others (s, err e) rest = refl
  go_on-after_method what id others (s, panic) rest = refl

  pub advance_all_first :
      (what : String) (method : S → S × Result (Unit {0})) (id : String) (s : S)
      (others : Map String S)
      → let m = (id, s) ∷ others in
        advance_all impl display what method (keys m) m
        ≡ after_method impl display what id (remove id m) (method s)
  unfolding advance_all advance advance_found lookup
  advance_all_first what method id s others = rw (eqb_refl id) (
      go_on-after_method what id (remove id ((id, s) ∷ others)) (method s)
        (λ n. advance_all impl display what method (keys others) n))

  -- What becomes of the map and of the caller.
  pub after_method_lem :
      (what id : String) (m : Map String S) (done : S × Result (Unit {0}))
      → let run = after_method impl display what id (remove id m) done in
        (run.1 ≢ returns (ok tt))
        × ((j : String) → lookup j run.0 ≡ (if eqb id j then none else lookup j m))
        × (done.1 ≡ ok tt → run.1 ≡ deadlock)
        × ((e : ProtocolError) → done.1 ≡ err e → run.1 ≡ returns (err (failed what display id e)))
  unfolding after_method
  after_method_lem what id m (s, ok _) =
      (λ h. cc, λ j. lookup-remove id j m, λ h. refl, λ e. λ h. absurd (err≢ok (sym h)))
  after_method_lem what id m (s, err d) = (
    λ h. cc,
    λ j. lookup-remove id j m,
    λ h. absurd (err≢ok h),
    λ e. λ h. rw (err-injective h) refl,
  )
  after_method_lem what id m (s, panic) = (
    λ h. cc,
    λ j. lookup-remove id j m,
    λ h. absurd (panic≢ok h),
    λ e. λ h. absurd (err≢panic (sym h)),
  )

  -- A loop over all keys that replaces by `g` replaces everywhere.
  pub everywhere :
      (g : Option S → Option S) (m : Map String S) (j : String) (after : Option S)
      → g none ≡ none
      → after ≡ (if elem j (keys m) then g (lookup j m) else lookup j m)
      → after ≡ g (lookup j m)
  everywhere g m j after gone h = elim (Bool-cases (elem j (keys m))) [
    | inl there ↦ rw there at h
    | inr away ↦
        let missing = lookup-elem j m away in
        (rw away at h) ∙ missing ∙ sym gone ∙ ap g (sym missing)
  ]

  stop_answer_ok :
      (others : Map String S) (r : Result (Unit {0}))
      → r ≢ panic
      → stop_answer impl display others r ≡ (others, ok tt)
  unfolding stop_answer
  stop_answer_ok others (ok _) h = refl
  stop_answer_ok others (err e) h = refl
  stop_answer_ok others panic h = absurd (h refl)

  pub stop_found_ok :
      ((s : S) → (impl.stop s).1 ≢ panic)
      → (k j : String) (m : Map String S) (found : Option S) → lookup k m ≡ found
      → ((stop_found impl display k m found).1 ≡ ok tt)
        × (lookup j (stop_found impl display k m found).0 ≡ (if eqb k j then none else lookup j m))
  unfolding stop_found
  stop_found_ok calm k j m none q = (refl, absent (λ _. none) k j m refl q)
  stop_found_ok calm k j m (some s) q =
      let done = stop_answer_ok (remove k m) (impl.stop s).1 (calm s) in
      (ap (λ r. r.1) done, ap (λ r. lookup j r.0) done ∙ lookup-remove k j m)

  heard_ok :
      (k j : String) (m : Map String S) (done : S × Result (Unit {0}))
      → done.1 ≢ panic
      → ((heard impl display k (remove k m) done).1 ≡ ok tt)
        × (lookup j (heard impl display k (remove k m) done).0
            ≡ (if eqb k j then some done.0 else lookup j m))
  unfolding heard
  heard_ok k j m (s, ok _) calm = (refl, lookup-insert_removed k j s m)
  heard_ok k j m (s, err e) calm = (refl, lookup-insert_removed k j s m)
  heard_ok k j m (s, panic) calm = absurd (calm refl)

  pub broadcast_found_ok :
      (event : ServiceEvent)
      → ((s : S) → (impl.handle_event event s).1 ≢ panic)
      → (k j : String) (m : Map String S) (found : Option S) → lookup k m ≡ found
      → ((broadcast_found impl display event k m found).1 ≡ ok tt)
        × (lookup j (broadcast_found impl display event k m found).0 ≡ (
            if eqb k j then option_map (λ s. (impl.handle_event event s).0) found else lookup j m))
  unfolding broadcast_found
  broadcast_found_ok event calm k j m none q =
      (refl, absent (option_map (λ s. (impl.handle_event event s).0)) k j m refl q)
  broadcast_found_ok event calm k j m (some s) q =
      heard_ok k j m (impl.handle_event event s) (calm s)
