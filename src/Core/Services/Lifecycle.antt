-- ===== src/Core/Services/Lifecycle.antt =====
-- The loops of `ServiceManager` (desktop/core/src/service.rs) over all services: what becomes of each.
use bit_drive.Prelude.{◌≡◌, ◌≢◌, ap, refl, String, false, [], ◌∷◌, none, some, if◌then◌else◌}
use mathlib.Core.Option.{map as option_map}
use bit_drive.Prelude.Eq.{eqb, string_eq}
use bit_drive.Prelude.Map.{Map, lookup}
use bit_drive.Prelude.Keys.{keys, IsUnique, lookup-none}
use bit_drive.Errors.{ok, err, panic, ProtocolError}
use bit_drive.Service.{Service, failed}
use bit_drive.Loop.{for_each_ok, for_each-lookup}
use bit_drive.Core.Context.{ServiceContext, ServiceRequest, ServiceResponse, ServiceEvent}
use bit_drive.Core.Services.{
  ServiceManager, returns, deadlock, init_with, init_all, start_all, stop_one, stop_all,
  broadcast_one, broadcast_event, list_services,
}
use bit_drive.Core.Services.Steps.{
  replaced, advance_all_first, after_method_lem, everywhere, stop_found_ok, broadcast_found_ok,
}

module _ {S : Type 0} (impl : Service S ServiceContext ServiceRequest ServiceResponse ServiceEvent)
    (display : ProtocolError → String) where
  -- On a manager with a service, `start_all` never succeeds. The service that comes first in the map is
  -- started: if that succeeds, the call never returns, and if it fails, that error is its result. That
  -- service is out of the map then, and all others are there as they were, not started.
  pub start_all_lem :
      (m : ServiceManager S) (id : String) (s : S) (others : Map String S)
      → m.services ≡ (id, s) ∷ others
      → let run = start_all impl display m in
        (run.1 ≢ returns (ok tt))
        × ((j : String)
            → lookup j run.0.services ≡ (if eqb id j then none else lookup j m.services))
        × ((impl.start s).1 ≡ ok tt → run.1 ≡ deadlock)
        × ((e : ProtocolError)
            → (impl.start s).1 ≡ err e
            → run.1 ≡ returns (err (failed "Failed to start " display id e)))
  unfolding start_all
  start_all_lem m id s others first =
      rw (first, advance_all_first impl display "Failed to start " impl.start id s others)
        (after_method_lem impl display "Failed to start " id ((id, s) ∷ others) (impl.start s))

  -- The same of `init_all`, where a context is set.
  pub init_all_lem :
      (m : ServiceManager S) (context : ServiceContext) (id : String) (s : S)
      (others : Map String S)
      → m.context ≡ some context
      → m.services ≡ (id, s) ∷ others
      → let run = init_all impl display m in
        (run.1 ≢ returns (ok tt))
        × ((j : String)
            → lookup j run.0.services ≡ (if eqb id j then none else lookup j m.services))
        × ((impl.init context s).1 ≡ ok tt → run.1 ≡ deadlock)
        × ((e : ProtocolError)
            → (impl.init context s).1 ≡ err e
            → run.1 ≡ returns (err (failed "Failed to init " display id e)))
  unfolding init_all init_with
  init_all_lem m context id s others set first =
      rw
        (
          set,
          first,
          advance_all_first impl display "Failed to init " (impl.init context) id s others,
        )
        (after_method_lem impl display "Failed to init " id ((id, s) ∷ others)
          (impl.init context s))

  -- On a manager that holds each identifier once, whose services do not panic when they are stopped,
  -- `stop_all` succeeds whatever the services answer, and no service is registered after it.
  pub stop_all-list_services :
      ((s : S) → (impl.stop s).1 ≢ panic)
      → (m : ServiceManager S) → IsUnique (keys m.services)
      → ((stop_all impl display m).1 ≡ ok tt)
        × (list_services (stop_all impl display m).0 ≡ [])
        × ((stop_all impl display m).0.running ≡ false)
  unfolding stop_all stop_one list_services
  stop_all-list_services calm m u =
      let fine =
        for_each_ok (stop_one impl display)
          (λ k. λ n. (stop_found_ok impl display calm k k n (lookup k n) refl).0) (keys m.services)
          m.services in
      let gone : (j : String) → lookup j (stop_all impl display m).0.services ≡ none = λ j.
        everywhere impl display (λ _. none) m.services j _ refl
          (for_each-lookup (stop_one impl display) (λ _. none)
            (λ k. λ i. λ n. λ _. (stop_found_ok impl display calm k i n (lookup k n) refl).1)
            (keys m.services) m.services u fine j) in
      (fine, ap keys (lookup-none (stop_all impl display m).0.services gone), refl)

  -- On a manager that holds each identifier once, whose services do not panic on the event,
  -- `broadcast_event` succeeds, and each registered service has handled the event exactly once, also
  -- after another one failed on it; no service is added or dropped.
  pub lookup-broadcast_event :
      (event : ServiceEvent)
      → ((s : S) → (impl.handle_event event s).1 ≢ panic)
      → (m : ServiceManager S) → IsUnique (keys m.services)
      → let run = broadcast_event impl display m event in
        (run.1 ≡ ok tt)
        × ((j : String)
            → lookup j run.0.services
              ≡ option_map (λ s. (impl.handle_event event s).0) (lookup j m.services))
  unfolding broadcast_event broadcast_one
  lookup-broadcast_event event calm m u =
      let handled = option_map (λ s. (impl.handle_event event s).0) in
      let fine =
        for_each_ok (broadcast_one impl display event)
          (λ k. λ n. (broadcast_found_ok impl display event calm k k n (lookup k n) refl).0)
          (keys m.services) m.services in
      (
        fine,
        λ j. everywhere impl display handled m.services j _ refl (
            for_each-lookup (broadcast_one impl display event) handled
              (λ k. λ i. λ n. λ _.
                replaced impl display handled k i n (lookup k n) _ refl
                  (broadcast_found_ok impl display event calm k i n (lookup k n) refl).1)
              (keys m.services) m.services u fine j),
      )
