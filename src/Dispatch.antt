-- ===== src/Dispatch.antt =====
-- `ServiceManager` of desktop/protocol/src/service.rs, over any implementation of the trait. It works on
-- the services in their places in the map; the map's lock is held meanwhile. The channel of events that
-- it makes is handed out by `event_sender` and read by nobody.
pub mod Stay
use bit_drive.Prelude.{
  ◌≡◌, ◌≢◌, ◌∙◌, sym, ap, refl, ℕ, String, Bool, true, false, List, [], ◌∷◌, Option, none, some,
  length, if◌then◌else◌, Bool-cases, inl, inr, arith,
}
use bit_drive.Prelude.Eq.{eqb, string_eq}
use bit_drive.Prelude.Map.{Map, lookup, insert, remove, eqb_refl}
use bit_drive.Prelude.Keys.{keys}
use bit_drive.Errors.{
  Result, ok, err, panic, ProtocolError, service_already_registered, service_not_registered, config,
  err≢ok, panic≢ok,
}
use bit_drive.Pb.Service.{NegotiatedCapability, error_not_found}
use bit_drive.Service.{Handle, Service, failed, not_found_text}

pub record ServiceConfig : Type 0 where
  pub settings : Map String String
  pub enabled : Bool

pub record ServiceContext : Type 0 where
  pub session : Handle
  pub channel_manager : Handle
  pub service_registry : Handle
  pub config : Handle

pub record ServiceRequest : Type 0 where
  pub service_id : String
  pub channel_id : ℕ
  pub request_id : ℕ
  pub payload : List ℕ
  pub metadata : Map String String

pub record ServiceResponse : Type 0 where
  pub request_id : ℕ
  pub result : ℕ
  pub payload : List ℕ
  pub error_message : String
  pub metadata : Map String String

pub data ServiceEvent : Type 0 where
  session_opened session_closed : ServiceEvent
  channel_opened channel_closed : ℕ → ServiceEvent
  capability_negotiated : List NegotiatedCapability → ServiceEvent
  peer_config_changed : String → ServiceEvent

pub record ServiceManager (S : Type 0) : Type 0 where
  pub services : Map String S
  pub context : Option ServiceContext

module _ {S : Type 0} where
  unfoldable pub empty : ServiceManager S
  empty = record { services = []; context = none }

  unfoldable pub set_context : ServiceManager S → ServiceContext → ServiceManager S
  set_context m context = record m { context = some context }

  unfoldable pub unregister_found :
      ServiceManager S → String → Option S → ServiceManager S × Result (Unit {0})
  unregister_found m service_id none = (m, err (service_not_registered service_id))
  unregister_found m service_id (some s) =
      (record m { services = remove service_id m.services }, ok tt)

  unfoldable pub unregister_service :
      ServiceManager S → String → ServiceManager S × Result (Unit {0})
  unfolding unregister_found
  unregister_service m service_id = unregister_found m service_id (lookup service_id m.services)

  unfoldable pub list_services : ServiceManager S → List String
  list_services m = keys m.services

  unfoldable pub service_count : ServiceManager S → ℕ
  service_count m = length m.services

  -- The rest of a loop with `?` after the service under `id` has run. A panic ends the loop as well.
  unfoldable pub after_try :
      (String → ProtocolError → ProtocolError)
      → String
      → Map String S
      → S × Result (Unit {0})
      → Map String S × Result (Unit {0})
      → Map String S × Result (Unit {0})
  after_try wrap id others (s, ok _) rest = ((id, s) ∷ rest.0, rest.1)
  after_try wrap id others (s, err e) rest = ((id, s) ∷ others, err (wrap id e))
  after_try wrap id others (s, panic) rest = ((id, s) ∷ others, panic)

  unfoldable pub try_all :
      (String → ProtocolError → ProtocolError)
      → (S → S × Result (Unit {0}))
      → Map String S
      → Map String S × Result (Unit {0})
  unfolding after_try
  try_all wrap method [] = ([], ok tt)
  try_all wrap method ((id, s) ∷ others) =
      after_try wrap id others (method s) (try_all wrap method others)

  -- The rest of a loop that logs errors.
  unfoldable pub after_log :
      String
      → Map String S
      → S × Result (Unit {0})
      → Map String S × Result (Unit {0})
      → Map String S × Result (Unit {0})
  after_log id others (s, panic) rest = ((id, s) ∷ others, panic)
  after_log id others (s, _) rest = ((id, s) ∷ rest.0, rest.1)

  unfoldable pub log_all :
      (S → S × Result (Unit {0})) → Map String S → Map String S × Result (Unit {0})
  unfolding after_log
  log_all method [] = ([], ok tt)
  log_all method ((id, s) ∷ others) = after_log id others (method s) (log_all method others)

  -- What `get_mut` leads to is written in its place.
  unfoldable pub write_at : String → S → Map String S → Map String S
  write_at id s [] = []
  write_at id s ((j, t) ∷ m) =
      let rest = write_at id s m in if eqb j id then (j, s) ∷ m else (j, t) ∷ rest

module _ {S : Type 0} (impl : Service S ServiceContext ServiceRequest ServiceResponse ServiceEvent)
    (display : ProtocolError → String) where
  unfoldable pub register_found :
      ServiceManager S → S → Option S → ServiceManager S × Result (Unit {0})
  register_found m service (some there) =
      (m, err (service_already_registered (impl.service_id service)))
  register_found m service none =
      (record m { services = insert (impl.service_id service) service m.services }, ok tt)

  unfoldable pub register_service : ServiceManager S → S → ServiceManager S × Result (Unit {0})
  unfolding register_found
  register_service m service =
      register_found m service (lookup (impl.service_id service) m.services)

  unfoldable pub init_with : Option ServiceContext → Map String S → Map String S × Result (Unit {0})
  unfolding try_all failed
  init_with none m = (m, err (config "Service context not set"))
  init_with (some context) m = try_all (failed "Failed to init " display) (impl.init context) m

  unfoldable pub init_all : ServiceManager S → ServiceManager S × Result (Unit {0})
  unfolding init_with
  init_all m = let done = init_with m.context m.services in (record m { services = done.0 }, done.1)

  unfoldable pub start_all : ServiceManager S → ServiceManager S × Result (Unit {0})
  unfolding try_all failed
  start_all m =
      let done = try_all (failed "Failed to start " display) impl.start m.services in
      (record m { services = done.0 }, done.1)

  unfoldable pub stop_all : ServiceManager S → ServiceManager S × Result (Unit {0})
  unfolding log_all
  stop_all m = let done = log_all impl.stop m.services in (record m { services = done.0 }, done.1)

  unfoldable pub broadcast_event :
      ServiceManager S → ServiceEvent → ServiceManager S × Result (Unit {0})
  unfolding log_all
  broadcast_event m event =
      let done = log_all (impl.handle_event event) m.services in
      (record m { services = done.0 }, done.1)

  unfoldable pub handle_found :
      ServiceManager S → ServiceRequest → Option S → Map String S × Result ServiceResponse
  unfolding not_found_text write_at
  handle_found m request none = (
    m.services,
    ok record {
      request_id = request.request_id;
      result = error_not_found;
      payload = [];
      error_message = not_found_text request.service_id;
      metadata = [];
    },
  )
  handle_found m request (some s) =
      let done = impl.handle_request request s in
      (write_at request.service_id done.0 m.services, done.1)

  unfoldable pub handle_request :
      ServiceManager S → ServiceRequest → ServiceManager S × Result ServiceResponse
  unfolding handle_found
  handle_request m request =
      let done = handle_found m request (lookup request.service_id m.services) in
      (record m { services = done.0 }, done.1)
