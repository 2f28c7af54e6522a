-- ===== src/Registry/Health.antt =====
-- Health and the queries of desktop/protocol/src/registry.rs.
use bit_drive.Prelude.{
  ℕ, ◌-◌, String, Bool, true, false, ◌&&◌, Option, none, some, List, [], ◌∷◌, ltb, length,
  if◌then◌else◌, map,
}
use bit_drive.Prelude.Eq.{string_eq}
use bit_drive.Prelude.Map.{Map, lookup, insert}
use bit_drive.Errors.{Result, ok}
use bit_drive.Pb.Service.{
  ServiceCapability, ServiceInfo, ServiceHeartbeat, ServiceHeartbeatResponse, success,
  error_not_found,
}
use bit_drive.Registry.{RegisteredService, ServiceRegistry, health_changed, Clock, send_to}

abbrev pub option_map {ℓ κ} : {A : Type ℓ} {B : Type κ} → (A → B) → Option A → Option B
option_map f none = none
option_map f (some a) = some (f a)

unfoldable pub get_service : ServiceRegistry → String → Option ServiceInfo
get_service r service_id = option_map (λ s. s.info) (lookup service_id r.services)

unfoldable pub get_capability : ServiceRegistry → String → Option ServiceCapability
get_capability r service_id = option_map (λ s. s.capability) (lookup service_id r.services)

unfoldable pub get_channel_id : ServiceRegistry → String → Option ℕ
get_channel_id r service_id = option_map (λ s. s.channel_id) (lookup service_id r.services)

unfoldable pub beat : ℕ → ℕ → Bool → RegisteredService → RegisteredService
beat system instant healthy s = record s {
  last_heartbeat = instant;
  healthy = healthy;
  info = record s.info { healthy = healthy; last_heartbeat = some system };
}

unfoldable pub heartbeat_found :
    ServiceRegistry
    → Clock
    → ServiceHeartbeat
    → Option RegisteredService
    → ServiceRegistry × Result ServiceHeartbeatResponse
unfolding beat send_to
heartbeat_found r now heartbeat none =
    (r, ok (record { result = error_not_found; acknowledge = false }))
heartbeat_found r now heartbeat (some s) = (
  record {
    services =
        insert heartbeat.service_id (beat now.system now.instant heartbeat.healthy s) r.services;
    event_tx =
        if heartbeat.healthy
        then r.event_tx
        else send_to (health_changed heartbeat.service_id false) r.event_tx;
  },
  ok (record { result = success; acknowledge = true }),
)

unfoldable pub handle_heartbeat :
    ServiceRegistry → Clock → ServiceHeartbeat → ServiceRegistry × Result ServiceHeartbeatResponse
unfolding heartbeat_found
handle_heartbeat r now heartbeat =
    heartbeat_found r now heartbeat (lookup heartbeat.service_id r.services)

-- `duration_since` is 0 where the heartbeat is the later one.
abbrev pub is_overdue : ℕ → ℕ → RegisteredService → Bool
is_overdue now timeout s = s.healthy && ltb timeout (now - s.last_heartbeat)

unfoldable pub overdue : ℕ → ℕ → Map String RegisteredService → List String
overdue now timeout [] = []
overdue now timeout ((id, s) ∷ rest) =
    let others = overdue now timeout rest in
    if is_overdue now timeout s then id ∷ others else others

unfoldable pub mark : RegisteredService → RegisteredService
mark s = record s { healthy = false; info = record s.info { healthy = false } }

unfoldable pub mark_found : ServiceRegistry → String → Option RegisteredService → ServiceRegistry
unfolding mark send_to
mark_found r id none = r
mark_found r id (some s) = record {
  services = insert id (mark s) r.services;
  event_tx = send_to (health_changed id false) r.event_tx;
}

unfoldable pub mark_unhealthy : ServiceRegistry → List String → ServiceRegistry
unfolding mark_found
mark_unhealthy r [] = r
mark_unhealthy r (id ∷ ids) = mark_unhealthy (mark_found r id (lookup id r.services)) ids

unfoldable pub check_health : ServiceRegistry → ℕ → ℕ → ServiceRegistry × List String
unfolding overdue mark_unhealthy
check_health r now timeout =
    let unhealthy = overdue now timeout r.services in (mark_unhealthy r unhealthy, unhealthy)

unfoldable pub list_services : ServiceRegistry → List ServiceInfo
list_services r = map (λ e. e.1.info) r.services

unfoldable pub service_count : ServiceRegistry → ℕ
service_count r = length r.services
