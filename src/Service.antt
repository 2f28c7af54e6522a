-- ===== src/Service.antt =====
-- `trait Service` of desktop/protocol/src/service.rs and of desktop/core/src/service.rs, which differ
-- in the types that they name. No service of this repository implements it: a service is a state with
-- the methods below, each of which may change that state, fail or panic.
use bit_drive.Prelude.{ℕ, String, join, Bool, true, false, []}
use bit_drive.Errors.{Result, ProtocolError, config}
use bit_drive.Pb.Service.{ServiceCapability}

-- A handle of an object that others share (`Arc`): a place in the heap.
abbrev pub Handle : Type 0
Handle = ℕ

pub record Service (S Context Request Response Event : Type 0) : Type 0 where
  pub service_id : S → String
  pub version : S → ℕ
  pub name : S → String
  pub description : S → String
  pub required : S → Bool
  pub init : Context → S → S × Result (Unit {0})
  pub start : S → S × Result (Unit {0})
  pub stop : S → S × Result (Unit {0})
  pub handle_request : Request → S → S × Result Response
  pub handle_event : Event → S → S × Result (Unit {0})

pub record ServiceStatus : Type 0 where
  pub service_id : String
  pub running : Bool
  pub healthy : Bool
  pub details : String

-- The default methods of the trait.
unfoldable pub capabilities : {S C R A E : Type 0} → Service S C R A E → S → ServiceCapability
capabilities impl s = record {
  service_id = impl.service_id s;
  version = impl.version s;
  name = impl.name s;
  description = impl.description s;
  required = impl.required s;
  metadata = [];
  feature_flags = 0;
}

unfoldable pub status : {S C R A E : Type 0} → Service S C R A E → S → ServiceStatus
status impl s = record {
  service_id = impl.service_id s;
  running = false;
  healthy = true;
  details = "";
}

-- `map_err(|e| ProtocolError::Config(format!("Failed to .. {}: {}", id, e)))`, where `display` is the
-- text of an error.
unfoldable pub failed : String → (ProtocolError → String) → String → ProtocolError → ProtocolError
failed what display id e = config (join what (join id (join ": " (display e))))

-- What is said of a service that nobody registered.
unfoldable pub not_found_text : String → String
not_found_text id = join "Service not found: " id
