-- ===== src/Registry.antt =====
-- desktop/protocol/src/registry.rs: the services that a peer offers. No handle of a service leaves the
-- registry, so the table holds the services themselves. The clocks are arguments: `SystemTime` is
-- read in milliseconds after the epoch, `Instant` in units of the timeout.
pub mod Shape
pub mod Health
pub mod Lifecycle
pub mod Checks
use bit_drive.Prelude.{
  ℕ, ◌-◌, String, Bool, true, false, not, ◌&&◌, ◌||◌, Option, none, some, List, [], ◌∷◌, ◌++◌, ◌==◌,
  ltb, length, if◌then◌else◌,
}
use bit_drive.Prelude.Eq.{eqb, string_eq}
use bit_drive.Prelude.Map.{Map, lookup, insert, remove}
use bit_drive.Errors.{Result, ok, err, invalid_service_config}
use bit_drive.Pb.Channel.{ChannelConfig}
use bit_drive.Pb.Service.{
  ServiceCapability, ServiceInfo, ServiceRegisterRequest, ServiceRegisterResponse,
  ServiceUnregisterRequest, ServiceUnregisterResponse, ServiceDiscoverRequest,
  ServiceDiscoverResponse, ServiceHeartbeat, ServiceHeartbeatResponse, success, error_generic,
  error_not_found,
}
use bit_drive.Frame.{value_or_zero}

pub record RegisteredService : Type 0 where
  pub info : ServiceInfo
  pub capability : ServiceCapability
  pub channel_id : ℕ
  pub last_heartbeat : ℕ
  pub healthy : Bool

pub data ServiceEvent : Type 0 where
  registered : String → ServiceEvent
  unregistered : String → ServiceEvent
  health_changed : String → Bool → ServiceEvent
  heartbeat_missed : String → ServiceEvent

-- `event_tx` holds the events that were handed to `try_send`, latest last. Its result is dropped.
pub record ServiceRegistry : Type 0 where
  pub services : Map String RegisteredService
  pub event_tx : Option (List ServiceEvent)

-- The clocks as one call reads them, in the order of the readings.
pub record Clock : Type 0 where
  pub system : ℕ
  pub system_later : ℕ
  pub instant : ℕ

unfoldable pub empty : ServiceRegistry
empty = record { services = []; event_tx = none }

unfoldable pub set_event_sender : ServiceRegistry → ServiceRegistry
set_event_sender r = record r { event_tx = some [] }

unfoldable pub send_to : ServiceEvent → Option (List ServiceEvent) → Option (List ServiceEvent)
send_to e none = none
send_to e (some sent) = some (sent ++ e ∷ [])

unfoldable pub service_of : Clock → ServiceCapability → ChannelConfig → RegisteredService
service_of now capability channel_config = record {
  info = record {
    service_id = capability.service_id;
    version = capability.version;
    name = capability.name;
    description = capability.description;
    channel_id = channel_config.channel_id;
    channel_type = channel_config.type;
    active = true;
    healthy = true;
    registered_at = some now.system;
    last_heartbeat = some now.system_later;
    metadata = capability.metadata;
    feature_flags = capability.feature_flags;
  };
  capability = capability;
  channel_id = value_or_zero channel_config.channel_id;
  last_heartbeat = now.instant;
  healthy = true;
}

-- `register_service` after its two fields, for what stands under the identifier.
unfoldable pub register_found :
    ServiceRegistry
    → Clock
    → ServiceCapability
    → ChannelConfig
    → Option RegisteredService
    → ServiceRegistry × ServiceRegisterResponse
unfolding service_of send_to
register_found r now capability channel_config (some there) = (
  r,
  record {
    result = error_generic;
    assigned_channel = some 0;
    error_message = "Service already registered";
  },
)
register_found r now capability channel_config none = (
  record {
    services = insert capability.service_id (service_of now capability channel_config) r.services;
    event_tx = send_to (registered capability.service_id) r.event_tx;
  },
  record { result = success; assigned_channel = channel_config.channel_id; error_message = "" },
)

-- `register_service` for the two fields of the request.
unfoldable pub register_with :
    ServiceRegistry
    → Clock
    → Option ServiceCapability
    → Option ChannelConfig
    → ServiceRegistry × Result ServiceRegisterResponse
unfolding register_found
register_with r now none config = (r, err (invalid_service_config "Missing capability"))
register_with r now (some capability) none =
    (r, err (invalid_service_config "Missing channel config"))
register_with r now (some capability) (some config) =
    let done = register_found r now capability config (lookup capability.service_id r.services) in
    (done.0, ok done.1)

unfoldable pub register_service :
    ServiceRegistry
    → Clock
    → ServiceRegisterRequest
    → ServiceRegistry × Result ServiceRegisterResponse
unfolding register_with
register_service r now request = register_with r now request.capability request.channel_config

unfoldable pub unregister_answer : Option RegisteredService → ServiceUnregisterResponse
unregister_answer (some removed) = record { result = success; error_message = "" }
unregister_answer none = record { result = error_not_found; error_message = "Service not found" }

-- The event is sent whether the service was there or not.
unfoldable pub unregister_service :
    ServiceRegistry → ServiceUnregisterRequest → ServiceRegistry × Result ServiceUnregisterResponse
unfolding unregister_answer send_to
unregister_service r request = (
  record {
    services = remove request.service_id r.services;
    event_tx = send_to (unregistered request.service_id) r.event_tx;
  },
  ok (unregister_answer (lookup request.service_id r.services)),
)

-- The tests of the loop of `discover_services`, each negated.
abbrev pub is_asked_for : ServiceDiscoverRequest → ServiceInfo → Bool
is_asked_for request info =
    (eqb request.service_id "" || eqb info.service_id request.service_id)
    && (not (ltb 0 request.version) || (info.version == request.version))
    && (request.include_inactive || info.active)

unfoldable pub discover : ServiceDiscoverRequest → Map String RegisteredService → List ServiceInfo
discover request [] = []
discover request ((id, service) ∷ rest) =
    let others = discover request rest in
    if is_asked_for request service.info then service.info ∷ others else others

unfoldable pub discover_services :
    ServiceRegistry → ServiceDiscoverRequest → Result ServiceDiscoverResponse
unfolding discover
discover_services r request =
    ok (record { result = success; services = discover request r.services; error_message = "" })
