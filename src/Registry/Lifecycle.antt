-- ===== src/Registry/Lifecycle.antt =====
-- Registration and its end in desktop/protocol/src/registry.rs.
use bit_drive.Prelude.{
  ℕ, ◌≡◌, ◌≢◌, ◌⊎◌, inl, inr, ◌∙◌, sym, refl, String, true≢false, Bool-cases, none, some,
  Option-cases, List,
}
use bit_drive.Prelude.Eq.{eqb, string_eq}
use bit_drive.Prelude.Map.{
  lookup, insert, remove, lookup-insert_self, lookup-insert_ne, lookup-remove,
}
use bit_drive.Errors.{ok}
use bit_drive.Pb.Channel.{ChannelConfig}
use bit_drive.Pb.Service.{ServiceCapability, ServiceRegisterRequest, success, error_generic}
use bit_drive.Frame.{value_or_zero}
use bit_drive.Registry.{
  RegisteredService, ServiceRegistry, Clock, register_service, register_with, register_found,
  service_of, unregister_service,
}
use bit_drive.Registry.Health.{get_capability, get_channel_id}

-- A request to register, with both of its fields.
abbrev pub request_of : ServiceCapability → ChannelConfig → List ℕ → ServiceRegisterRequest
request_of capability config state = record {
  capability = some capability;
  channel_config = some config;
  service_state = state;
}

lookup-remove-insert :
    (r : ServiceRegistry) (id j : String) (s : RegisteredService)
    → lookup id r.services ≡ none
    → lookup j (remove id (insert id s r.services)) ≡ lookup j r.services
lookup-remove-insert r id j s free =
    lookup-remove id j (insert id s r.services) ∙ elim (Bool-cases (eqb id j)) [
      | inl same ↦ let here = (string_eq.beq_iff id j).0 same in rw same (rw (← here, free) refl)
      | inr other ↦ rw other (
          lookup-insert_ne id j s r.services
            (λ e. true≢false (sym ((string_eq.beq_iff id j).1 (sym e)) ∙ other)))
    ]

-- A request with both fields is refused, with nothing changed, where a service stands under the
-- identifier of its capability. Otherwise it succeeds with the channel that was asked for: the service
-- is found with its capability and channel, no other service moves, and an unregistration brings back
-- every entry of the table as it was.
pub register_service_lem :
    (r : ServiceRegistry) (now : Clock) (c : ServiceCapability) (config : ChannelConfig)
    (state : List ℕ)
    → let (after, answer) = register_service r now (request_of c config state) in
      ((s : RegisteredService) × (lookup c.service_id r.services ≡ some s)
        × (after ≡ r)
        × (answer
            ≡ ok (record {
              result = error_generic;
              assigned_channel = some 0;
              error_message = "Service already registered";
            })))
      ⊎ ((lookup c.service_id r.services ≡ none)
          × (answer
              ≡ ok (record {
                result = success;
                assigned_channel = config.channel_id;
                error_message = "";
              }))
          × (get_capability after c.service_id ≡ some c)
          × (get_channel_id after c.service_id ≡ some (value_or_zero config.channel_id))
          × ((j : String) → j ≢ c.service_id → lookup j after.services ≡ lookup j r.services)
          × ((j : String)
              → lookup j
                  ((unregister_service after
                      (record { service_id = c.service_id; channel_id = none })).0
                    ).services
                ≡ lookup j r.services))
unfolding register_service register_with register_found get_capability get_channel_id
    unregister_service service_of
register_service_lem r now c config state = elim (Option-cases (lookup c.service_id r.services)) [
  | inr (s, e) ↦ inl (s, e, rw e refl, rw e refl)
  | inl free ↦
      let self = lookup-insert_self c.service_id (service_of now c config) r.services in
      inr (
        free,
        rw free refl,
        rw free (rw self refl),
        rw free (rw self refl),
        λ j ne. rw free (lookup-insert_ne c.service_id j (service_of now c config) r.services ne),
        λ j. rw free (lookup-remove-insert r c.service_id j (service_of now c config) free),
      )
]
