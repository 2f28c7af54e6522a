-- ===== src/Tests/Services.antt =====
-- Examples of desktop/protocol/src/capability.rs and desktop/protocol/src/registry.rs.
use bit_drive.Prelude.{some, false, ℕ, ◌≡◌, refl, true, none, List, [], ◌∷◌, All}
use bit_drive.Errors.{ok, err, required_capability_missing}
use bit_drive.Pb.Service.{
  CapabilitySet, NegotiatedCapability, ServiceCapability, ServiceRegisterRequest,
}
use bit_drive.Prelude.Keys.{keys}
use bit_drive.Capability.{
  CapabilityNegotiator, negotiate, get_version, is_available, find_capability,
}
use bit_drive.Capability.Defaults.{desktop_default, sync, config}
use bit_drive.Capability.Versions.{IsDistinct, common_version, get_version-negotiate}
use bit_drive.Capability.Outcome.{negotiate_required}
use bit_drive.Prelude.Eq.{string_eq}
use bit_drive.Pb.Channel.{ChannelConfig}
use bit_drive.Prelude.Map.{lookup, insert, remove}
use bit_drive.Registry.{
  ServiceRegistry, empty, Clock, service_of, register_service, unregister_service,
}
use bit_drive.Registry.Health.{check_health, handle_heartbeat}
use bit_drive.Registry.Shape.{
  IsValid, Call, register, heartbeat, check, unregister, serve, serve_all, serve_all-from_empty,
}

-- One service with a version of its own, and the configuration service.
abbrev offer : ℕ → CapabilitySet
offer version = record desktop_default {
  capabilities = record sync { version = version } ∷ config ∷ [];
}

abbrev ready : ℕ → CapabilityNegotiator
ready version = record { local_capabilities = offer version; negotiated = [] }

abbrev offered : ℕ → List NegotiatedCapability
offered version =
    record {
      service_id = "bpl.sync";
      negotiated_version = version;
      negotiated_features = [];
      available = true;
      unavailable_reason = "";
    }
    ∷ record {
      service_id = "bpl.config";
      negotiated_version = 1;
      negotiated_features = [];
      available = true;
      unavailable_reason = "";
    }
    ∷ []

low_with_high :
    negotiate (ready 2) (offer 5) ≡ (record (ready 2) { negotiated = offered 2 }, ok (offered 2))
unfolding negotiate find_capability
low_with_high = refl

high_with_low :
    negotiate (ready 5) (offer 2) ≡ (record (ready 5) { negotiated = offered 2 }, ok (offered 2))
unfolding negotiate find_capability
high_with_low = refl

get_version-negotiate_example :
    get_version (record (ready 2) { negotiated = offered 2 }) "bpl.sync"
    ≡ common_version
        (find_capability "bpl.sync" (offer 2).capabilities)
        (find_capability "bpl.sync" (offer 5).capabilities)
unfolding find_capability IsDistinct
get_version-negotiate_example =
    get_version-negotiate (ready 2) (record (ready 2) { negotiated = offered 2 }) (offer 5)
      (offered 2) "bpl.sync" (refl, (refl, tt)) low_with_high

negotiate_required_example :
    (offered 2 ≡ offered 2)
    × All
        (λ c.
          c.required ≡ true
          → is_available (record (ready 2) { negotiated = offered 2 }) c.service_id ≡ true)
        (offer 2).capabilities
negotiate_required_example =
    negotiate_required (ready 2) (record (ready 2) { negotiated = offered 2 }) (offer 5) (offered 2)
      low_with_high

-- The remote side lacks the configuration service, which the local side requires.
abbrev poor : CapabilitySet
poor = record desktop_default { capabilities = sync ∷ [] }

refused : negotiate (ready 2) poor ≡ (ready 2, err (required_capability_missing "bpl.config"))
unfolding negotiate find_capability
refused = refl

abbrev opening_channel : ChannelConfig
opening_channel = record {
  channel_id = some 4;
  type = 1;
  priority = 1;
  send_window = 100;
  receive_window = 100;
  max_frame_size = 16384;
  service_id = "bpl.sync";
  metadata = [];
}

abbrev noon : Clock
noon = record { system = 12; system_later = 12; instant = 12 }

-- The registry with one service, heard of at 12.
abbrev tended : ServiceRegistry
tended = record {
  services = ("bpl.sync", service_of noon sync opening_channel) ∷ [];
  event_tx = none;
}

abbrev asked : ServiceCapability → ServiceRegisterRequest
asked capability = record {
  capability = some capability;
  channel_config = some opening_channel;
  service_state = [];
}

-- Two services are registered, one of them twice; one reports that it is not well, is found overdue,
-- and the other one leaves.
abbrev busy_day : List Call
busy_day =
    register noon (asked sync)
    ∷ register noon (asked config)
    ∷ register noon (asked sync)
    ∷ heartbeat noon
        (record { service_id = "bpl.sync"; channel_id = some 4; healthy = false; metrics = [] })
    ∷ check 20 3
    ∷ unregister (record { service_id = "bpl.config"; channel_id = none })
    ∷ []

one_left : keys (serve_all empty busy_day).services ≡ "bpl.sync" ∷ []
unfolding serve_all serve empty unregister_service remove check_health handle_heartbeat lookup
    register_service insert
one_left = refl

serve_all-from_empty_example : IsValid (serve_all empty busy_day)
serve_all-from_empty_example = serve_all-from_empty busy_day
