-- ===== src/Core/Database/Records.antt =====
-- The records of desktop/core/src/database.rs, which are also the rows of the tables: no statement
-- writes NULL where a record has no `Option`. Times and counters are not negative.
use bit_drive.Prelude.{ℕ, String, Bool, Option, List}

pub record DeviceRecord : Type 0 where
  pub id : List ℕ
  pub name : Option String
  pub address : String
  pub paired : Bool
  pub trusted : Bool
  pub psk : Option (List ℕ)
  pub last_seen : Option ℕ
  pub created_at : ℕ
  pub metadata : String

pub record SessionRecord : Type 0 where
  pub id : List ℕ
  pub device_id : List ℕ
  pub protocol_version : String
  pub session_keys : List ℕ
  pub capabilities : String
  pub state : String
  pub created_at : ℕ
  pub last_activity : ℕ
  pub bytes_sent : ℕ
  pub bytes_received : ℕ

pub record ConfigRecord : Type 0 where
  pub key : String
  pub value : String
  pub description : Option String
  pub read_only : Bool
  pub secret : Bool
  pub updated_at : ℕ

pub record SyncJobRecord : Type 0 where
  pub id : String
  pub name : String
  pub description : String
  pub direction : String
  pub local_path : String
  pub remote_path : String
  pub enabled : Bool
  pub auto_sync : Bool
  pub schedule_type : Option String
  pub schedule_value : Option String
  pub conflict_strategy : String
  pub filters : String
  pub status : String
  pub last_sync : Option ℕ
  pub created_at : ℕ
  pub updated_at : ℕ
  pub stats : String

pub record SyncConflictRecord : Type 0 where
  pub id : String
  pub job_id : String
  pub local_path : String
  pub remote_path : String
  pub local_metadata : String
  pub remote_metadata : String
  pub local_hash : String
  pub remote_hash : String
  pub detected_at : ℕ
  pub resolved : Bool
  pub resolution_strategy : String
