-- ===== src/Tests/Dispatch.antt =====
-- Examples of the service manager of desktop/protocol/src/service.rs.
use bit_drive.Prelude.{◌+◌, ◌≡◌, false, [], ◌∷◌, none}
use bit_drive.Errors.{ok, err, panic, internal}
use bit_drive.Service.{Service}
use bit_drive.Dispatch.{
  ServiceContext, ServiceRequest, ServiceResponse, ServiceEvent, ServiceManager, channel_closed,
  list_services,
}
use bit_drive.Dispatch.Stay.{
  init, start, stop, broadcast, request, serve_all, list_services-serve_all,
}
use bit_drive.Tests.Managers.{Counter, display_error}

-- A service that does not start, panics when it is stopped and refuses all requests.
abbrev sulking : Service Counter ServiceContext ServiceRequest ServiceResponse ServiceEvent
sulking = record {
  service_id = λ s. s.id;
  version = λ s. 1;
  name = λ s. s.id;
  description = λ s. "";
  required = λ s. false;
  init = λ context. λ s. (s, ok tt);
  start = λ s. (s, err (internal "refused"));
  stop = λ s. (s, panic);
  handle_request = λ r. λ s. (record s { calls = s.calls + 1 }, err (internal "refused"));
  handle_event = λ e. λ s. (record s { calls = s.calls + 1 }, ok tt);
}

abbrev registered : ServiceManager Counter
registered = record {
  services =
      ("one", record { id = "one"; calls = 0 }) ∷ ("two", record { id = "two"; calls = 5 }) ∷ [];
  context = none;
}

abbrev to_one : ServiceRequest
to_one = record { service_id = "one"; channel_id = 1; request_id = 9; payload = []; metadata = [] }

list_services-serve_all_example :
    list_services (
      serve_all sulking display_error registered
        (init ∷ start ∷ request to_one ∷ broadcast (channel_closed 3) ∷ stop ∷ []))
    ≡ list_services registered
list_services-serve_all_example =
    list_services-serve_all sulking display_error registered
      (init ∷ start ∷ request to_one ∷ broadcast (channel_closed 3) ∷ stop ∷ [])
