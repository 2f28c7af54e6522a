-- ===== src/Registry/Shape.antt =====
-- The shape of the registry of desktop/protocol/src/registry.rs, over any sequence of calls.
use bit_drive.Prelude.{ℕ, String, true, Option, none, some, List, [], ◌∷◌, ◌≡◌, refl}
use bit_drive.Prelude.Eq.{string_eq}
use bit_drive.Prelude.Map.{lookup, Everywhere, insert-Everywhere, remove-Everywhere, nil-Everywhere}
use bit_drive.Pb.Channel.{ChannelConfig}
use bit_drive.Pb.Service.{
  ServiceCapability, ServiceRegisterRequest, ServiceUnregisterRequest, ServiceHeartbeat,
}
use bit_drive.Frame.{value_or_zero}
use bit_drive.Registry.{
  RegisteredService, ServiceRegistry, Clock, empty, register_service, register_with, register_found,
  service_of, unregister_service,
}
use bit_drive.Registry.Health.{
  handle_heartbeat, heartbeat_found, beat, mark, mark_found, mark_unhealthy, check_health, overdue,
}

pub data Call : Type 0 where
  register : Clock → ServiceRegisterRequest → Call
  unregister : ServiceUnregisterRequest → Call
  heartbeat : Clock → ServiceHeartbeat → Call
  check : (now timeout : ℕ) → Call

unfoldable pub serve : ServiceRegistry → Call → ServiceRegistry
serve r (register now request) = (register_service r now request).0
serve r (unregister request) = (unregister_service r request).0
serve r (heartbeat now beat) = (handle_heartbeat r now beat).0
serve r (check now timeout) = (check_health r now timeout).0

unfoldable pub serve_all : ServiceRegistry → List Call → ServiceRegistry
unfolding serve
serve_all r [] = r
serve_all r (c ∷ cs) = serve_all (serve r c) cs

-- The service stands under its own identifier, and what it keeps twice it keeps alike.
pub IsNamed : String → RegisteredService → Type 0
IsNamed id s =
    (s.info.service_id ≡ id)
    × (s.capability.service_id ≡ id)
    × (s.channel_id ≡ value_or_zero s.info.channel_id)
    × (s.healthy ≡ s.info.healthy)
    × (s.info.active ≡ true)

pub IsValid : ServiceRegistry → Type 0
IsValid r = Everywhere IsNamed r.services

empty-IsValid : IsValid empty
unfolding IsValid empty
empty-IsValid = nil-Everywhere IsNamed

register_found-IsValid :
    (r : ServiceRegistry) (now : Clock) (c : ServiceCapability) (config : ChannelConfig)
    (found : Option RegisteredService)
    → IsValid r
    → IsValid (register_found r now c config found).0
unfolding register_found IsValid IsNamed service_of
register_found-IsValid r now c config (some s) v = v
register_found-IsValid r now c config none v =
    insert-Everywhere IsNamed r.services c.service_id (service_of now c config) v
      (refl, refl, refl, refl, refl)

register_with-IsValid :
    (r : ServiceRegistry) (now : Clock) (c : Option ServiceCapability)
    (config : Option ChannelConfig)
    → IsValid r
    → IsValid (register_with r now c config).0
unfolding register_with
register_with-IsValid r now none config v = v
register_with-IsValid r now (some c) none v = v
register_with-IsValid r now (some c) (some config) v =
    register_found-IsValid r now c config (lookup c.service_id r.services) v

heartbeat_found-IsValid :
    (r : ServiceRegistry) (now : Clock) (h : ServiceHeartbeat) (found : Option RegisteredService)
    → lookup h.service_id r.services ≡ found
    → IsValid r
    → IsValid (heartbeat_found r now h found).0
unfolding heartbeat_found IsValid IsNamed beat Everywhere
heartbeat_found-IsValid r now h none e v = v
heartbeat_found-IsValid r now h (some s) e v =
    let (id, cap, ch, healthy, active) = v h.service_id s e in
    insert-Everywhere IsNamed r.services h.service_id (beat now.system now.instant h.healthy s) v
      (id, cap, ch, refl, active)

mark_found-IsValid :
    (r : ServiceRegistry) (id : String) (found : Option RegisteredService)
    → lookup id r.services ≡ found
    → IsValid r
    → IsValid (mark_found r id found)
unfolding mark_found IsValid IsNamed mark Everywhere
mark_found-IsValid r id none e v = v
mark_found-IsValid r id (some s) e v =
    let (name, cap, ch, healthy, active) = v id s e in
    insert-Everywhere IsNamed r.services id (mark s) v (name, cap, ch, refl, active)

mark_unhealthy-IsValid :
    (r : ServiceRegistry) (ids : List String) → IsValid r → IsValid (mark_unhealthy r ids)
unfolding mark_unhealthy
mark_unhealthy-IsValid r [] v = v
mark_unhealthy-IsValid r (id ∷ ids) v =
    mark_unhealthy-IsValid (mark_found r id (lookup id r.services)) ids
      (mark_found-IsValid r id (lookup id r.services) refl v)

serve-IsValid : (r : ServiceRegistry) (c : Call) → IsValid r → IsValid (serve r c)
unfolding serve register_service unregister_service handle_heartbeat check_health IsValid
serve-IsValid r (register now request) v =
    register_with-IsValid r now request.capability request.channel_config v
serve-IsValid r (unregister request) v = remove-Everywhere IsNamed r.services request.service_id v
serve-IsValid r (heartbeat now h) v =
    heartbeat_found-IsValid r now h (lookup h.service_id r.services) refl v
serve-IsValid r (check now timeout) v = mark_unhealthy-IsValid r (overdue now timeout r.services) v

serve_all-IsValid : (r : ServiceRegistry) (cs : List Call) → IsValid r → IsValid (serve_all r cs)
unfolding serve_all
serve_all-IsValid r [] v = v
serve_all-IsValid r (c ∷ cs) v = serve_all-IsValid (serve r c) cs (serve-IsValid r c v)

-- A registry that starts empty keeps this shape through any sequence of registrations,
-- unregistrations, heartbeats and health checks: a service stands under the identifier of its
-- description and of its capability, its channel is the one described, its two health marks agree,
-- and it is active.
pub serve_all-from_empty : (cs : List Call) → IsValid (serve_all empty cs)
serve_all-from_empty cs = serve_all-IsValid empty cs empty-IsValid
