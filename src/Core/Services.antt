-- ===== src/Core/Services.antt =====
-- `ServiceManager` of desktop/core/src/service.rs, over any implementation of the trait. A service is
-- taken out of the map while one of its methods runs.
pub mod Steps
pub mod Lifecycle
pub mod Requests
pub mod Shape
use bit_drive.Prelude.{
  ℕ, String, Bool, true, false, List, [], ◌∷◌, Option, none, some, length, if◌then◌else◌,
}
use bit_drive.Prelude.Eq.{string_eq}
use bit_drive.Prelude.Map.{Map, lookup, insert, remove, contains_key}
use bit_drive.Prelude.Keys.{keys}
use bit_drive.Errors.{
  Result, ok, err, panic, ProtocolError, service_already_registered, service_not_registered, config,
}
use bit_drive.Pb.Service.{error_not_found}
use bit_drive.Core.Context.{ServiceContext, ServiceRequest, ServiceResponse, ServiceEvent, error}
use bit_drive.Service.{Handle, Service, failed, not_found_text}
use bit_drive.Loop.{for_each}

pub record ServiceManager (S : Type 0) : Type 0 where
  pub services : Map String S
  pub context : Option ServiceContext
  pub events : Handle
  pub running : Bool

-- How a method ends: with a result, or never, on a lock that it holds itself.
pub data Ending : Type 0 where
  returns : Result (Unit {0}) → Ending
  deadlock : Ending

-- The next turn of a loop, after one that succeeded.
unfoldable pub go_on {ℓ} : {M : Type ℓ} → M × Ending → (M → M × Ending) → M × Ending
go_on (m, returns (ok _)) rest = rest m
go_on (m, returns (err e)) rest = (m, returns (err e))
go_on (m, returns panic) rest = (m, returns panic)
go_on (m, deadlock) rest = (m, deadlock)

module _ {S : Type 0} where
  unfoldable pub new_manager : Handle → ServiceManager S
  new_manager events = record { services = []; context = none; events = events; running = false }

  unfoldable pub set_context : ServiceManager S → ServiceContext → ServiceManager S
  set_context m context = record m { context = some context }

  unfoldable pub unregister_found :
      ServiceManager S → String → Option S → ServiceManager S × Result (Unit {0})
  unregister_found m service_id none = (m, err (service_not_registered service_id))
  unregister_found m service_id (some s) =
      (record m { services = remove service_id m.services }, ok tt)

  unfoldable pub unregister_service :
      ServiceManager S → String → ServiceManager S × Result (Unit {0})
  unfolding unregister_found
  unregister_service m service_id = unregister_found m service_id (lookup service_id m.services)

  unfoldable pub list_services : ServiceManager S → List String
  list_services m = keys m.services

  unfoldable pub service_count : ServiceManager S → ℕ
  service_count m = length m.services

  unfoldable pub is_running : ServiceManager S → Bool
  is_running m = m.running

module _ {S : Type 0} (impl : Service S ServiceContext ServiceRequest ServiceResponse ServiceEvent)
    (display : ProtocolError → String) where
  unfoldable pub register_found :
      ServiceManager S → S → Option S → ServiceManager S × Result (Unit {0})
  register_found m service (some there) =
      (m, err (service_already_registered (impl.service_id service)))
  register_found m service none =
      (record m { services = insert (impl.service_id service) service m.services }, ok tt)

  unfoldable pub register_service : ServiceManager S → S → ServiceManager S × Result (Unit {0})
  unfolding register_found
  register_service m service =
      register_found m service (lookup (impl.service_id service) m.services)

  -- The body of `if let Some(mut service) = self.services.write().remove(&id)`. In edition 2021 the
  -- guard of the lock lives to the end of the body, and the lock is not reentrant: once the method has
  -- succeeded, the `self.services.write()` of the `insert` waits for ever. A service whose method fails
  -- or panics is not put back.
  unfoldable pub after_method :
      String → String → Map String S → S × Result (Unit {0}) → Map String S × Ending
  unfolding failed
  after_method what id others (s, ok _) = (others, deadlock)
  after_method what id others (s, err e) = (others, returns (err (failed what display id e)))
  after_method what id others (s, panic) = (others, returns panic)

  unfoldable pub advance_found :
      String
      → (S → S × Result (Unit {0}))
      → String
      → Map String S
      → Option S
      → Map String S × Ending
  unfolding after_method
  advance_found what method id m none = (m, returns (ok tt))
  advance_found what method id m (some s) = after_method what id (remove id m) (method s)

  unfoldable pub advance :
      String → (S → S × Result (Unit {0})) → String → Map String S → Map String S × Ending
  unfolding advance_found
  advance what method id m = advance_found what method id m (lookup id m)

  unfoldable pub advance_all :
      String → (S → S × Result (Unit {0})) → List String → Map String S → Map String S × Ending
  unfolding advance go_on
  advance_all what method [] m = (m, returns (ok tt))
  advance_all what method (id ∷ ids) m =
      go_on (advance what method id m) (λ n. advance_all what method ids n)

  unfoldable pub init_with : Option ServiceContext → Map String S → Map String S × Ending
  unfolding advance_all
  init_with none m = (m, returns (err (config "Service context not set")))
  init_with (some context) m = advance_all "Failed to init " (impl.init context) (keys m) m

  unfoldable pub init_all : ServiceManager S → ServiceManager S × Ending
  unfolding init_with
  init_all m = let done = init_with m.context m.services in (record m { services = done.0 }, done.1)

  unfoldable pub start_all : ServiceManager S → ServiceManager S × Ending
  unfolding advance_all
  start_all m =
      let done = advance_all "Failed to start " impl.start (keys m.services) m.services in
      (record m { services = done.0; running = true }, done.1)

  -- The error of `stop` is logged; the service is not put back.
  unfoldable pub stop_answer : Map String S → Result (Unit {0}) → Map String S × Result (Unit {0})
  stop_answer others panic = (others, panic)
  stop_answer others _ = (others, ok tt)

  unfoldable pub stop_found : String → Map String S → Option S → Map String S × Result (Unit {0})
  unfolding stop_answer
  stop_found id m none = (m, ok tt)
  stop_found id m (some s) = stop_answer (remove id m) (impl.stop s).1

  unfoldable pub stop_one : String → Map String S → Map String S × Result (Unit {0})
  unfolding stop_found
  stop_one id m = stop_found id m (lookup id m)

  unfoldable pub stop_all : ServiceManager S → ServiceManager S × Result (Unit {0})
  unfolding stop_one for_each
  stop_all m =
      let done = for_each stop_one (keys m.services) m.services in
      (record m { services = done.0; running = false }, done.1)

  unfoldable pub answered :
      String → Map String S → S × Result ServiceResponse → Map String S × Result ServiceResponse
  answered id others (s, panic) = (others, panic)
  answered id others (s, result) = (insert id s others, result)

  unfoldable pub handle_found :
      ServiceManager S → ServiceRequest → Option S → Map String S × Result ServiceResponse
  unfolding answered error not_found_text
  handle_found m request none = (
    m.services,
    ok (error request.request_id error_not_found (not_found_text request.service_id)),
  )
  handle_found m request (some s) =
      answered request.service_id (remove request.service_id m.services)
        (impl.handle_request request s)

  unfoldable pub handle_request :
      ServiceManager S → ServiceRequest → ServiceManager S × Result ServiceResponse
  unfolding handle_found
  handle_request m request =
      let done = handle_found m request (lookup request.service_id m.services) in
      (record m { services = done.0 }, done.1)

  -- The error of `handle_event` is logged.
  unfoldable pub heard :
      String → Map String S → S × Result (Unit {0}) → Map String S × Result (Unit {0})
  heard id others (s, panic) = (others, panic)
  heard id others (s, _) = (insert id s others, ok tt)

  unfoldable pub broadcast_found :
      ServiceEvent → String → Map String S → Option S → Map String S × Result (Unit {0})
  unfolding heard
  broadcast_found event id m none = (m, ok tt)
  broadcast_found event id m (some s) = heard id (remove id m) (impl.handle_event event s)

  unfoldable pub broadcast_one :
      ServiceEvent → String → Map String S → Map String S × Result (Unit {0})
  unfolding broadcast_found
  broadcast_one event id m = broadcast_found event id m (lookup id m)

  unfoldable pub broadcast_event :
      ServiceManager S → ServiceEvent → ServiceManager S × Result (Unit {0})
  unfolding broadcast_one for_each
  broadcast_event m event =
      let done = for_each (broadcast_one event) (keys m.services) m.services in
      (record m { services = done.0 }, done.1)
