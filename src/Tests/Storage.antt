-- ===== src/Tests/Storage.antt =====
-- Examples of desktop/core/src/database.rs.
use bit_drive.Prelude.{
  ℕ, suc, ◌≡◌, refl, String, true, false, List, [], ◌∷◌, none, some, get_elem?, All,
}
use mathlib.Core.Option.{map as option_map}
use bit_drive.Prelude.Eq.{string_eq, bytes_eq}
use bit_drive.Prelude.Keys.{IsUnique}
use bit_drive.Errors.{ok, err, database, internal}
use bit_drive.Core.Database.Records.{DeviceRecord, ConfigRecord, SyncJobRecord, SyncConflictRecord}
use bit_drive.Core.Database.State.{Engine, Database, config_key}
use bit_drive.Core.Database.Table.{key_column}
use bit_drive.Core.Database.{get_config, is_address_taken, upsert_device}
use bit_drive.Core.Database.Values.{
  Call, put, delete, replay, view_of, serve_all, view_of-serve_all,
}
use bit_drive.Core.Database.Devices.{IsDirectory, addresses, upsert_device-IsDirectory}
use bit_drive.Core.Database.References.{
  IsIntact, AreSessionsRooted, AreConflictsRooted, session, session_state, job, conflict,
  job_delete,
}
use bit_drive.Core.Database.Integrity.{perform_all, perform_all-IsIntact}
use bit_drive.Core.Database.Integrity as Integrity
use bit_drive.Core.Database.Schema.{Statement}
use bit_drive.Core.Database.Migrations.{Schema, Faults, migrations, is_applied, run_migrations}
use bit_drive.Core.Database.InEffect.{IsInEffect, IsFaithful}
use bit_drive.Core.Database.Upgrades.{run_migrations-IsFaithful}

abbrev phone : DeviceRecord
phone = record {
  id = 1 ∷ [];
  name = some "Phone";
  address = "AA:BB";
  paired = true;
  trusted = true;
  psk = none;
  last_seen = some 5;
  created_at = 5;
  metadata = "{}";
}

abbrev locked : ConfigRecord
locked = record {
  key = "mode";
  value = "safe";
  description = none;
  read_only = true;
  secret = false;
  updated_at = 5;
}

abbrev stored : Database
stored = record {
  devices = phone ∷ [];
  sessions = [];
  config = locked ∷ [];
  sync_jobs = [];
  sync_conflicts = [];
}

abbrev sqlite : Engine
sqlite = record {
  foreign_keys = true;
  unique_text = λ column. column;
  foreign_text = "FOREIGN KEY constraint failed";
}

stored-IsUnique : IsUnique (key_column config_key stored.config)
unfolding IsUnique key_column
stored-IsUnique = (refl, tt)

abbrev settings_calls : List Call
settings_calls =
    record { command = delete "mode"; fault = none; now = 6 }
    ∷ record { command = put "mode" "fast" none false false; fault = none; now = 7 }
    ∷ record { command = delete "mode"; fault = some (internal "busy"); now = 8 }
    ∷ []

view_of-serve_all_example :
    ((j : String)
      → view_of (serve_all stored settings_calls) j ≡ replay (view_of stored) settings_calls j)
    × ((j : String)
        → get_config none (serve_all stored settings_calls) j
          ≡ ok (option_map (λ r. r.value) (replay (view_of stored) settings_calls j)))
    × IsUnique (key_column config_key (serve_all stored settings_calls).config)
view_of-serve_all_example = view_of-serve_all stored settings_calls stored-IsUnique

stored-IsDirectory : IsDirectory stored.devices
unfolding IsDirectory IsUnique key_column addresses
stored-IsDirectory = ((refl, tt), (refl, tt))

upsert_device-IsDirectory_example :
    IsDirectory
      (upsert_device sqlite none 9 stored (2 ∷ []) none "AA:BB" false false none).0.devices
    × (is_address_taken (2 ∷ []) "AA:BB" stored.devices ≡ true
        → upsert_device sqlite none 9 stored (2 ∷ []) none "AA:BB" false false none
          ≡ (stored, err (database "devices.address")))
upsert_device-IsDirectory_example =
    upsert_device-IsDirectory sqlite none 9 stored (2 ∷ []) none "AA:BB" false false none
      stored-IsDirectory

stored-IsIntact : IsIntact stored
unfolding IsIntact AreSessionsRooted AreConflictsRooted
stored-IsIntact = (tt, tt)

abbrev photos : SyncJobRecord
photos = record {
  id = "photos";
  name = "Photos";
  description = "";
  direction = "push";
  local_path = "/a";
  remote_path = "/b";
  enabled = true;
  auto_sync = false;
  schedule_type = none;
  schedule_value = none;
  conflict_strategy = "manual";
  filters = "[]";
  status = "idle";
  last_sync = none;
  created_at = 1;
  updated_at = 1;
  stats = "{}";
}

abbrev clash_of : String → SyncConflictRecord
clash_of job_id = record {
  id = job_id;
  job_id = job_id;
  local_path = "/a/1";
  remote_path = "/b/1";
  local_metadata = "{}";
  remote_metadata = "{}";
  local_hash = "";
  remote_hash = "";
  detected_at = 2;
  resolved = false;
  resolution_strategy = "";
}

-- A session of a device that is there, one of a device that is not, a call that fails, a job with a
-- conflict, a conflict of a job that is not there, and the end of the job.
abbrev writes : List Integrity.Call
writes =
    record { write = session (7 ∷ []) (1 ∷ []) "1.0.0" [] "[]"; fault = none; now = 6 }
    ∷ record { write = session (8 ∷ []) (3 ∷ []) "1.0.0" [] "[]"; fault = none; now = 7 }
    ∷ record { write = session_state (7 ∷ []) "active"; fault = some (internal "busy"); now = 8 }
    ∷ record { write = job photos; fault = none; now = 9 }
    ∷ record { write = conflict (clash_of "photos"); fault = none; now = 10 }
    ∷ record { write = conflict (clash_of "music"); fault = none; now = 11 }
    ∷ record { write = job_delete "photos"; fault = none; now = 12 }
    ∷ []

perform_all-IsIntact_example : IsIntact (perform_all sqlite stored writes)
perform_all-IsIntact_example = perform_all-IsIntact sqlite stored writes refl stored-IsIntact

abbrev fresh_schema : Schema
fresh_schema = record { tables = []; indexes = []; applied = [] }

-- The batch of the first migration breaks off after three statements.
abbrev faults : ℕ → Faults
faults version = record {
  checking = none;
  applying = some (3, internal "disk full");
  recording = none;
}

fresh_schema-IsFaithful : IsFaithful migrations fresh_schema
unfolding IsFaithful is_applied
fresh_schema-IsFaithful i m there h = cc

run_migrations-IsFaithful_example :
    let run = run_migrations none faults 9 fresh_schema in
    IsFaithful migrations run.0
    × (run.1 ≡ ok tt
        → (i : ℕ) (m : List Statement) → get_elem? migrations i ≡ some m
        → (is_applied (suc i) run.0 ≡ true) × All (IsInEffect run.0) m)
run_migrations-IsFaithful_example =
    run_migrations-IsFaithful none faults 9 fresh_schema fresh_schema-IsFaithful
