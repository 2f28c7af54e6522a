-- ===== src/Pb/Service.antt =====
-- `ServiceCapability` and the other messages about services and capabilities.
use bit_drive.Prelude.{ℕ, String, Bool, Option, List}
use bit_drive.Prelude.Map.{Map}
use bit_drive.Pb.Channel.{ChannelConfig}

pub record ServiceCapability : Type 0 where
  pub service_id : String
  pub version : ℕ
  pub name : String
  pub description : String
  pub required : Bool
  pub metadata : Map String String
  pub feature_flags : ℕ

pub record ProtocolVersion : Type 0 where
  pub major : ℕ
  pub minor : ℕ
  pub patch : ℕ

pub record CapabilitySet : Type 0 where
  pub capabilities : List ServiceCapability
  pub protocol_version : Option ProtocolVersion
  pub software_version : String
  pub device_name : String
  pub device_id : Option (List ℕ)

pub record NegotiatedCapability : Type 0 where
  pub service_id : String
  pub negotiated_version : ℕ
  pub negotiated_features : Map String String
  pub available : Bool
  pub unavailable_reason : String

pub record VersionCompatibility : Type 0 where
  pub service_id : String
  pub local_version : ℕ
  pub remote_version : ℕ
  pub compatible : Bool
  pub incompatibility_reason : String

-- `ResultCode::Success as i32` and the codes that the registry returns.
abbrev pub success : ℕ
success = 0

abbrev pub error_generic : ℕ
error_generic = 1

abbrev pub error_not_found : ℕ
error_not_found = 3

pub record ServiceInfo : Type 0 where
  pub service_id : String
  pub version : ℕ
  pub name : String
  pub description : String
  pub channel_id : Option ℕ
  pub channel_type : ℕ
  pub active : Bool
  pub healthy : Bool
  pub registered_at : Option ℕ
  pub last_heartbeat : Option ℕ
  pub metadata : Map String String
  pub feature_flags : ℕ

pub record ServiceRegisterRequest : Type 0 where
  pub capability : Option ServiceCapability
  pub channel_config : Option ChannelConfig
  pub service_state : List ℕ

pub record ServiceRegisterResponse : Type 0 where
  pub result : ℕ
  pub assigned_channel : Option ℕ
  pub error_message : String

pub record ServiceUnregisterRequest : Type 0 where
  pub service_id : String
  pub channel_id : Option ℕ

pub record ServiceUnregisterResponse : Type 0 where
  pub result : ℕ
  pub error_message : String

pub record ServiceDiscoverRequest : Type 0 where
  pub service_id : String
  pub version : ℕ
  pub include_inactive : Bool

pub record ServiceDiscoverResponse : Type 0 where
  pub result : ℕ
  pub services : List ServiceInfo
  pub error_message : String

pub record ServiceHeartbeat : Type 0 where
  pub service_id : String
  pub channel_id : Option ℕ
  pub healthy : Bool
  pub metrics : Map String String

pub record ServiceHeartbeatResponse : Type 0 where
  pub result : ℕ
  pub acknowledge : Bool
