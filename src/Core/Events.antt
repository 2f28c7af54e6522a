-- ===== src/Core/Events.antt =====
-- desktop/core/src/events.rs: the events and what they carry. Machine integers of a fixed width stand
-- for themselves, an `i16`, `i32` or `f32` for its bits: nothing computes with them. `DeviceId` and
-- `SessionId` are their bytes, `ChannelId` its number.
use bit_drive.Prelude.{ℕ, String, Bool, Option, List}
use bit_drive.Prelude.Map.{Map}
use bit_drive.Pb.Service.{NegotiatedCapability}

pub record AdapterInfo : Type 0 where
  pub id : String
  pub name : String
  pub address : String
  pub powered : Bool
  pub discoverable : Bool
  pub pairable : Bool

pub record DeviceInfo : Type 0 where
  pub id : List ℕ
  pub name : Option String
  pub address : String
  pub paired : Bool
  pub connected : Bool
  pub rssi : Option ℕ
  pub device_class : Option ℕ
  pub services : List String

pub record ServiceCapability : Type 0 where
  pub service_id : String
  pub version : ℕ
  pub name : String
  pub description : String
  pub required : Bool
  pub metadata : Map String String
  pub feature_flags : ℕ

pub record FileMetadata : Type 0 where
  pub path : String
  pub name : String
  pub size : ℕ
  pub is_directory : Bool
  pub modified_time : ℕ
  pub created_time : ℕ
  pub mime_type : Option String
  pub hash : Option String
  pub permissions : ℕ
  pub is_symlink : Bool
  pub symlink_target : Option String

pub record SyncStats : Type 0 where
  pub files_total : ℕ
  pub files_synced : ℕ
  pub files_skipped : ℕ
  pub files_conflicted : ℕ
  pub bytes_total : ℕ
  pub bytes_synced : ℕ
  pub errors : ℕ

pub record SyncConflict : Type 0 where
  pub id : String
  pub job_id : String
  pub local_path : String
  pub remote_path : String
  pub local_metadata : String
  pub remote_metadata : String
  pub local_hash : String
  pub remote_hash : String

pub record PhotoBackupStats : Type 0 where
  pub total_photos : ℕ
  pub backed_up : ℕ
  pub skipped : ℕ
  pub errors : ℕ
  pub bytes_total : ℕ
  pub bytes_transferred : ℕ

pub record MediaState : Type 0 where
  pub state : String
  pub position_ms : ℕ
  pub duration_ms : ℕ
  pub volume : ℕ
  pub muted : Bool
  pub shuffle : Bool
  pub repeat : String

pub record MediaMetadata : Type 0 where
  pub title : String
  pub artist : String
  pub album : String
  pub album_artist : String
  pub genre : String
  pub track_number : ℕ
  pub total_tracks : ℕ
  pub year : ℕ
  pub duration_ms : ℕ
  pub artwork_uri : Option String
  pub artwork_data : Option (List ℕ)

pub record ProximityState : Type 0 where
  pub state : String
  pub rssi : ℕ
  pub distance_estimate : Option ℕ
  pub confidence : ℕ

pub record StreamInfo : Type 0 where
  pub stream_id : String
  pub path : String
  pub file_size : ℕ
  pub mime_type : String
  pub seekable : Bool
  pub supports_range : Bool
  pub recommended_chunk_size : ℕ

pub data Event : Type 0 where
  bluetooth_adapter_added : AdapterInfo → Event
  bluetooth_adapter_removed : String → Event
  bluetooth_device_found : DeviceInfo → Event
  bluetooth_device_lost : List ℕ → Event
  bluetooth_device_paired : List ℕ → Event
  bluetooth_device_unpaired : List ℕ → Event
  bluetooth_device_connected : List ℕ → Event
  bluetooth_device_disconnected : List ℕ → Event
  session_opening : List ℕ → Event
  session_opened : List ℕ → Event
  session_negotiating_capabilities : List ℕ → Event
  session_authenticating : List ℕ → Event
  session_active : List ℕ → Event
  session_closing : List ℕ → Event
  session_closed : List ℕ → Event
  session_error : List ℕ → String → Event
  capabilities_received : List ℕ → List ServiceCapability → Event
  capabilities_negotiated : List ℕ → List NegotiatedCapability → Event
  auth_challenge_sent : List ℕ → Event
  auth_challenge_received : List ℕ → Event
  auth_response_sent : List ℕ → Event
  auth_response_received : List ℕ → Event
  auth_success : List ℕ → Event
  auth_failure : List ℕ → String → Event
  channel_opened : List ℕ → ℕ → String → Event
  channel_closed : List ℕ → ℕ → Event
  channel_error : List ℕ → ℕ → String → Event
  service_registered : String → Event
  service_unregistered : String → Event
  service_started : String → Event
  service_stopped : String → Event
  service_health_changed : String → Bool → Event
  file_created : String → FileMetadata → Event
  file_modified : String → FileMetadata → Event
  file_deleted : String → Event
  file_moved : String → String → Event
  directory_created : String → Event
  directory_deleted : String → Event
  sync_job_started : String → Event
  sync_job_completed : String → SyncStats → Event
  sync_job_failed : String → String → Event
  sync_conflict_detected : String → SyncConflict → Event
  sync_conflict_resolved : String → String → Event
  sync_progress : String → ℕ → ℕ → Event
  photo_backup_started : String → Event
  photo_backup_progress : String → ℕ → ℕ → String → Event
  photo_backup_completed : String → PhotoBackupStats → Event
  photo_backup_failed : String → String → Event
  shell_session_created : String → List ℕ → Event
  shell_command_executed : String → String → ℕ → Event
  shell_output : String → String → String → Event
  shell_session_closed : String → Event
  media_state_changed : MediaState → Event
  media_metadata_changed : MediaMetadata → Event
  media_volume_changed : ℕ → Event
  proximity_state_changed : ProximityState → Event
  proximity_rssi_updated : ℕ → Event
  stream_opened : String → StreamInfo → Event
  stream_data : String → List ℕ → Event
  stream_closed : String → Event
  stream_error : String → String → Event
  app_launched : String → String → Event
  app_launch_failed : String → String → Event
  config_changed : String → String → String → Event
  shutdown_requested : Event
  config_reloaded : Event
