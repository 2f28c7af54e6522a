-- ===== src/Tests/Managers.antt =====
-- Examples of the service managers of desktop/core/src/service.rs and desktop/protocol/src/service.rs.
use bit_drive.Prelude.{ℕ, ◌+◌, ◌≡◌, ◌≢◌, refl, String, false, [], ◌∷◌, none, some, if◌then◌else◌}
use mathlib.Core.Option.{map as option_map}
use bit_drive.Prelude.Eq.{eqb, string_eq}
use bit_drive.Prelude.Map.{lookup}
use bit_drive.Prelude.Keys.{keys, IsUnique}
use bit_drive.Errors.{Result, ok, err, panic, internal, ProtocolError}
use bit_drive.Pb.Service.{error_not_found}
use bit_drive.Service.{Service, failed, not_found_text}
use bit_drive.Core.Context.{
  ServiceContext, ServiceRequest, ServiceResponse, ServiceEvent, success, error, channel_closed,
}
use bit_drive.Core.Services.{
  ServiceManager, returns, deadlock, start_all, stop_all, broadcast_event, handle_request,
  list_services,
}
use bit_drive.Core.Services.Lifecycle.{
  start_all_lem, stop_all-list_services, lookup-broadcast_event,
}
use bit_drive.Core.Services.Requests.{handle_request_lem}

-- A service that counts its calls and fails when it is called "bad".
pub record Counter : Type 0 where
  pub id : String
  pub calls : ℕ

abbrev called : Counter → Counter × Result (Unit {0})
called s =
    if eqb s.id "bad"
    then (s, err (internal "refused"))
    else (record s { calls = s.calls + 1 }, ok tt)

abbrev pub counter : Service Counter ServiceContext ServiceRequest ServiceResponse ServiceEvent
counter = record {
  service_id = λ s. s.id;
  version = λ s. 1;
  name = λ s. s.id;
  description = λ s. "";
  required = λ s. false;
  init = λ context. called;
  start = called;
  stop = λ s. (s, err (internal "busy"));
  handle_request =
      λ r. λ s. (record s { calls = s.calls + 1 }, ok (success r.request_id r.payload));
  handle_event = λ e. λ s. (record s { calls = s.calls + 1 }, err (internal "deaf"));
}

abbrev pub display_error : ProtocolError → String
display_error e = "error"

abbrev good : Counter
good = record { id = "good"; calls = 0 }

abbrev bad : Counter
bad = record { id = "bad"; calls = 5 }

abbrev two_services : ServiceManager Counter
two_services = record {
  services = ("good", good) ∷ ("bad", bad) ∷ [];
  context = none;
  events = 0;
  running = false;
}

two-IsUnique : IsUnique (keys two_services.services)
unfolding IsUnique
two-IsUnique = (refl, (refl, tt))

stop_calm : (s : Counter) → (counter.stop s).1 ≢ panic
stop_calm s h = cc

event_calm : (s : Counter) → (counter.handle_event (channel_closed 3) s).1 ≢ panic
event_calm s h = cc

abbrev to_good : ServiceRequest
to_good = record {
  service_id = "good";
  channel_id = 1;
  request_id = 9;
  payload = 1 ∷ 2 ∷ [];
  metadata = [];
}

start_all_lem_example :
    let run = start_all counter display_error two_services in
    (run.1 ≢ returns (ok tt))
    × ((j : String)
        → lookup j run.0.services ≡ (if eqb "good" j then none else lookup j two_services.services))
    × ((called good).1 ≡ ok tt → run.1 ≡ deadlock)
    × ((e : ProtocolError)
        → (called good).1 ≡ err e
        → run.1 ≡ returns (err (failed "Failed to start " display_error "good" e)))
start_all_lem_example =
    start_all_lem counter display_error two_services "good" good (("bad", bad) ∷ []) refl

start_hangs : (start_all counter display_error two_services).1 ≡ deadlock
start_hangs = start_all_lem_example.2 refl

stop_all-list_services_example :
    ((stop_all counter display_error two_services).1 ≡ ok tt)
    × (list_services (stop_all counter display_error two_services).0 ≡ [])
    × ((stop_all counter display_error two_services).0.running ≡ false)
stop_all-list_services_example =
    stop_all-list_services counter display_error stop_calm two_services two-IsUnique

lookup-broadcast_event_example :
    let run = broadcast_event counter display_error two_services (channel_closed 3) in
    (run.1 ≡ ok tt)
    × ((j : String)
        → lookup j run.0.services
          ≡ option_map
              (λ s. (counter.handle_event (channel_closed 3) s).0)
              (lookup j two_services.services))
lookup-broadcast_event_example =
    lookup-broadcast_event counter display_error (channel_closed 3) event_calm two_services
      two-IsUnique

handle_request_lem_example :
    let run = handle_request counter display_error two_services to_good in
    ((s : Counter)
      → lookup "good" two_services.services ≡ some s
      → (counter.handle_request to_good s).1 ≢ panic
      → (run.1 ≡ (counter.handle_request to_good s).1)
        × ((j : String)
            → lookup j run.0.services ≡ (
                if eqb "good" j
                then some (counter.handle_request to_good s).0
                else lookup j two_services.services)))
    × (lookup "good" two_services.services ≡ none
        → (run.0 ≡ two_services) × (run.1 ≡ ok (error 9 error_not_found (not_found_text "good"))))
handle_request_lem_example = handle_request_lem counter display_error two_services to_good
