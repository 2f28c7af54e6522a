-- ===== src/Capability/Defaults.antt =====
-- The default capabilities of desktop/protocol/src/capability.rs (`defaults`). `CARGO_PKG_VERSION` is
-- the version of desktop/Cargo.toml.
use bit_drive.Prelude.{String, Bool, true, false, some, [], ◌∷◌}
use bit_drive.Pb.Service.{ServiceCapability, CapabilitySet}

-- The fields that the descriptors share.
abbrev descriptor : String → String → String → Bool → ServiceCapability
descriptor service_id name description required = record {
  service_id = service_id;
  version = 1;
  name = name;
  description = description;
  required = required;
  metadata = [];
  feature_flags = 0;
}

abbrev pub filesystem : ServiceCapability
filesystem =
    descriptor "bpl.filesystem" "Filesystem Service" "Remote filesystem access and manipulation"
      false

abbrev pub sync : ServiceCapability
sync = descriptor "bpl.sync" "File Sync Service" "Bidirectional file synchronization" false

abbrev pub config : ServiceCapability
config = descriptor "bpl.config" "Configuration Service" "Device configuration management" true

abbrev pub photo_backup : ServiceCapability
photo_backup =
    descriptor "bpl.photo_backup" "Photo Backup Service" "Automatic photo and video backup" false

abbrev pub shell : ServiceCapability
shell =
    descriptor "bpl.shell" "Remote Shell Service" "Remote command execution and shell access" false

abbrev pub media_control : ServiceCapability
media_control =
    descriptor "bpl.media_control" "Media Control Service" "Remote media playback control" false

abbrev pub phone_fs : ServiceCapability
phone_fs =
    descriptor "bpl.phone_fs" "Phone Filesystem Service" "Access to Android SAF document trees"
      false

abbrev pub proximity : ServiceCapability
proximity =
    descriptor "bpl.proximity" "Proximity Service" "Proximity detection and RSSI monitoring" false

abbrev pub file_stream : ServiceCapability
file_stream =
    descriptor "bpl.file_stream" "File Stream Service" "High-speed streaming file transfers" false

abbrev pub app_launcher : ServiceCapability
app_launcher =
    descriptor "bpl.app_launcher" "App Launcher Service" "Remote application launching" false

abbrev pub desktop_default : CapabilitySet
desktop_default = record {
  capabilities =
      filesystem ∷ sync ∷ config ∷ photo_backup ∷ shell ∷ media_control ∷ phone_fs ∷ proximity
      ∷ file_stream ∷ app_launcher ∷ [];
  protocol_version = some (record { major = 1; minor = 0; patch = 0 });
  software_version = "0.1.0";
  device_name = "BPL Desktop";
  device_id = some [];
}

abbrev pub android_default : CapabilitySet
android_default = record {
  capabilities =
      filesystem ∷ sync ∷ config ∷ photo_backup ∷ shell ∷ media_control ∷ phone_fs ∷ proximity
      ∷ file_stream ∷ app_launcher ∷ [];
  protocol_version = some (record { major = 1; minor = 0; patch = 0 });
  software_version = "0.1.0";
  device_name = "BPL Android";
  device_id = some [];
}
