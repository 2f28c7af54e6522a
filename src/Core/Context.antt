-- ===== src/Core/Context.antt =====
-- `ServiceContext`, the requests, the responses and the events of desktop/core/src/service.rs. The
-- handles that a context carries are never followed here.
use bit_drive.Prelude.{ℕ, String, Bool, ◌&&◌, List, [], ◌∷◌, Option, none, some, any, if◌then◌else◌}
use bit_drive.Prelude.Eq.{eqb, string_eq}
use bit_drive.Prelude.Map.{Map}
use bit_drive.Pb.Service.{NegotiatedCapability}
use bit_drive.Service.{Handle}

pub record ServiceContext : Type 0 where
  pub config : Handle
  pub database : Handle
  pub events : Handle
  pub device_id : List ℕ
  pub session_id : Option (List ℕ)
  pub channel_id : Option ℕ
  pub negotiated_capabilities : List NegotiatedCapability

unfoldable pub new_context : Handle → Handle → Handle → List ℕ → ServiceContext
new_context settings database events device_id = record {
  config = settings;
  database = database;
  events = events;
  device_id = device_id;
  session_id = none;
  channel_id = none;
  negotiated_capabilities = [];
}

unfoldable pub with_session : ServiceContext → List ℕ → ServiceContext
with_session context session_id = record context { session_id = some session_id }

unfoldable pub with_channel : ServiceContext → ℕ → ServiceContext
with_channel context channel_id = record context { channel_id = some channel_id }

unfoldable pub with_capabilities : ServiceContext → List NegotiatedCapability → ServiceContext
with_capabilities context capabilities = record context { negotiated_capabilities = capabilities }

-- The test of `any` and of `find`.
abbrev pub is_usable : String → NegotiatedCapability → Bool
is_usable service_id c = eqb c.service_id service_id && c.available

unfoldable pub has_capability : ServiceContext → String → Bool
has_capability context service_id = any (is_usable service_id) context.negotiated_capabilities

unfoldable pub find_usable : String → List NegotiatedCapability → Option ℕ
find_usable service_id [] = none
find_usable service_id (c ∷ cs) =
    let rest = find_usable service_id cs in
    if is_usable service_id c then some c.negotiated_version else rest

unfoldable pub get_capability_version : ServiceContext → String → Option ℕ
unfolding find_usable
get_capability_version context service_id = find_usable service_id context.negotiated_capabilities

pub record ServiceRequest : Type 0 where
  pub service_id : String
  pub channel_id : ℕ
  pub request_id : ℕ
  pub payload : List ℕ
  pub metadata : Map String String

-- `result` is an `i32`; the codes that are used here are not negative.
pub record ServiceResponse : Type 0 where
  pub request_id : ℕ
  pub result : ℕ
  pub payload : List ℕ
  pub error_message : String
  pub metadata : Map String String

unfoldable pub success : ℕ → List ℕ → ServiceResponse
success request_id payload = record {
  request_id = request_id;
  result = 0;
  payload = payload;
  error_message = "";
  metadata = [];
}

unfoldable pub error : ℕ → ℕ → String → ServiceResponse
error request_id code message = record {
  request_id = request_id;
  result = code;
  payload = [];
  error_message = message;
  metadata = [];
}

pub data ServiceEvent : Type 0 where
  session_opened session_closed : List ℕ → ServiceEvent
  capabilities_negotiated : List NegotiatedCapability → ServiceEvent
  channel_opened channel_closed : ℕ → ServiceEvent
  peer_config_changed : String → ServiceEvent
  device_connected device_disconnected : List ℕ → ServiceEvent
