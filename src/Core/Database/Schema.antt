-- ===== src/Core/Database/Schema.antt =====
-- The statements of the migrations of desktop/core/src/database.rs: tables with their columns as they
-- are declared, and indexes.
use bit_drive.Prelude.{String, Bool, true, false, List, [], ◌∷◌}

pub record Column : Type 0 where
  pub name : String
  pub declaration : String

-- `FOREIGN KEY (column) REFERENCES table (target)`, with or without `ON DELETE CASCADE`
pub record Reference : Type 0 where
  pub column : String
  pub table : String
  pub target : String
  pub cascades : Bool

pub record Table : Type 0 where
  pub name : String
  pub columns : List Column
  pub references : List Reference

pub record Index : Type 0 where
  pub name : String
  pub table : String
  pub column : String

-- Each with `IF NOT EXISTS`.
pub data Statement : Type 0 where
  create_table : Table → Statement
  create_index : Index → Statement

abbrev column : String → String → Column
column name declaration = record { name = name; declaration = declaration }

abbrev pub devices_table : Table
devices_table = record {
  name = "devices";
  columns =
      column "id" "BLOB PRIMARY KEY"
      ∷ column "name" "TEXT"
      ∷ column "address" "TEXT NOT NULL UNIQUE"
      ∷ column "paired" "INTEGER NOT NULL DEFAULT 0"
      ∷ column "trusted" "INTEGER NOT NULL DEFAULT 0"
      ∷ column "psk" "BLOB"
      ∷ column "last_seen" "INTEGER"
      ∷ column "created_at" "INTEGER NOT NULL"
      ∷ column "metadata" "TEXT"
      ∷ [];
  references = [];
}

abbrev pub sessions_table : Table
sessions_table = record {
  name = "sessions";
  columns =
      column "id" "BLOB PRIMARY KEY"
      ∷ column "device_id" "BLOB NOT NULL"
      ∷ column "protocol_version" "TEXT NOT NULL"
      ∷ column "session_keys" "BLOB"
      ∷ column "capabilities" "TEXT"
      ∷ column "state" "TEXT NOT NULL"
      ∷ column "created_at" "INTEGER NOT NULL"
      ∷ column "last_activity" "INTEGER NOT NULL"
      ∷ column "bytes_sent" "INTEGER DEFAULT 0"
      ∷ column "bytes_received" "INTEGER DEFAULT 0"
      ∷ [];
  references =
      record { column = "device_id"; table = "devices"; target = "id"; cascades = true } ∷ [];
}

abbrev pub services_table : Table
services_table = record {
  name = "services";
  columns =
      column "id" "TEXT PRIMARY KEY"
      ∷ column "session_id" "BLOB NOT NULL"
      ∷ column "name" "TEXT NOT NULL"
      ∷ column "version" "INTEGER NOT NULL"
      ∷ column "channel_id" "INTEGER NOT NULL"
      ∷ column "channel_type" "TEXT NOT NULL"
      ∷ column "active" "INTEGER NOT NULL DEFAULT 0"
      ∷ column "healthy" "INTEGER NOT NULL DEFAULT 1"
      ∷ column "registered_at" "INTEGER NOT NULL"
      ∷ column "last_heartbeat" "INTEGER"
      ∷ column "metadata" "TEXT"
      ∷ [];
  references =
      record { column = "session_id"; table = "sessions"; target = "id"; cascades = true } ∷ [];
}

abbrev pub sync_jobs_table : Table
sync_jobs_table = record {
  name = "sync_jobs";
  columns =
      column "id" "TEXT PRIMARY KEY"
      ∷ column "name" "TEXT NOT NULL"
      ∷ column "description" "TEXT"
      ∷ column "direction" "TEXT NOT NULL"
      ∷ column "local_path" "TEXT NOT NULL"
      ∷ column "remote_path" "TEXT NOT NULL"
      ∷ column "enabled" "INTEGER NOT NULL DEFAULT 1"
      ∷ column "auto_sync" "INTEGER NOT NULL DEFAULT 0"
      ∷ column "schedule_type" "TEXT"
      ∷ column "schedule_value" "TEXT"
      ∷ column "conflict_strategy" "TEXT NOT NULL DEFAULT 'last_write_wins'"
      ∷ column "filters" "TEXT"
      ∷ column "status" "TEXT NOT NULL DEFAULT 'idle'"
      ∷ column "last_sync" "INTEGER"
      ∷ column "created_at" "INTEGER NOT NULL"
      ∷ column "updated_at" "INTEGER NOT NULL"
      ∷ column "stats" "TEXT"
      ∷ [];
  references = [];
}

abbrev pub sync_conflicts_table : Table
sync_conflicts_table = record {
  name = "sync_conflicts";
  columns =
      column "id" "TEXT PRIMARY KEY"
      ∷ column "job_id" "TEXT NOT NULL"
      ∷ column "local_path" "TEXT NOT NULL"
      ∷ column "remote_path" "TEXT NOT NULL"
      ∷ column "local_metadata" "TEXT"
      ∷ column "remote_metadata" "TEXT"
      ∷ column "local_hash" "TEXT"
      ∷ column "remote_hash" "TEXT"
      ∷ column "detected_at" "INTEGER NOT NULL"
      ∷ column "resolved" "INTEGER NOT NULL DEFAULT 0"
      ∷ column "resolution_strategy" "TEXT"
      ∷ [];
  references =
      record { column = "job_id"; table = "sync_jobs"; target = "id"; cascades = true } ∷ [];
}

abbrev pub photo_backup_sessions_table : Table
photo_backup_sessions_table = record {
  name = "photo_backup_sessions";
  columns =
      column "id" "TEXT PRIMARY KEY"
      ∷ column "device_id" "BLOB NOT NULL"
      ∷ column "status" "TEXT NOT NULL"
      ∷ column "total_photos" "INTEGER DEFAULT 0"
      ∷ column "backed_up" "INTEGER DEFAULT 0"
      ∷ column "skipped" "INTEGER DEFAULT 0"
      ∷ column "errors" "INTEGER DEFAULT 0"
      ∷ column "bytes_total" "INTEGER DEFAULT 0"
      ∷ column "bytes_transferred" "INTEGER DEFAULT 0"
      ∷ column "started_at" "INTEGER NOT NULL"
      ∷ column "completed_at" "INTEGER"
      ∷ column "config" "TEXT"
      ∷ [];
  references = [];
}

abbrev pub photos_table : Table
photos_table = record {
  name = "photos";
  columns =
      column "id" "TEXT PRIMARY KEY"
      ∷ column "backup_session_id" "TEXT"
      ∷ column "filename" "TEXT NOT NULL"
      ∷ column "path" "TEXT NOT NULL"
      ∷ column "size" "INTEGER NOT NULL"
      ∷ column "mime_type" "TEXT"
      ∷ column "width" "INTEGER"
      ∷ column "height" "INTEGER"
      ∷ column "created_time" "INTEGER NOT NULL"
      ∷ column "modified_time" "INTEGER NOT NULL"
      ∷ column "hash" "TEXT"
      ∷ column "exif" "TEXT"
      ∷ column "location_lat" "REAL"
      ∷ column "location_lon" "REAL"
      ∷ column "albums" "TEXT"
      ∷ column "favorite" "INTEGER DEFAULT 0"
      ∷ column "trashed" "INTEGER DEFAULT 0"
      ∷ [];
  references =
      record {
        column = "backup_session_id";
        table = "photo_backup_sessions";
        target = "id";
        cascades = false;
      }
      ∷ [];
}

abbrev pub shell_sessions_table : Table
shell_sessions_table = record {
  name = "shell_sessions";
  columns =
      column "id" "TEXT PRIMARY KEY"
      ∷ column "device_id" "BLOB NOT NULL"
      ∷ column "name" "TEXT"
      ∷ column "working_directory" "TEXT"
      ∷ column "environment" "TEXT"
      ∷ column "state" "TEXT NOT NULL"
      ∷ column "cols" "INTEGER"
      ∷ column "rows" "INTEGER"
      ∷ column "created_at" "INTEGER NOT NULL"
      ∷ column "last_activity" "INTEGER NOT NULL"
      ∷ [];
  references =
      record { column = "device_id"; table = "devices"; target = "id"; cascades = true } ∷ [];
}

abbrev pub shell_history_table : Table
shell_history_table = record {
  name = "shell_history";
  columns =
      column "id" "INTEGER PRIMARY KEY AUTOINCREMENT"
      ∷ column "session_id" "TEXT NOT NULL"
      ∷ column "command" "TEXT NOT NULL"
      ∷ column "exit_code" "INTEGER"
      ∷ column "executed_at" "INTEGER NOT NULL"
      ∷ [];
  references =
      record { column = "session_id"; table = "shell_sessions"; target = "id"; cascades = true }
      ∷ [];
}

abbrev pub config_table : Table
config_table = record {
  name = "config";
  columns =
      column "key" "TEXT PRIMARY KEY"
      ∷ column "value" "TEXT NOT NULL"
      ∷ column "description" "TEXT"
      ∷ column "read_only" "INTEGER DEFAULT 0"
      ∷ column "secret" "INTEGER DEFAULT 0"
      ∷ column "updated_at" "INTEGER NOT NULL"
      ∷ [];
  references = [];
}

abbrev pub initial_schema : List Statement
initial_schema =
    create_table devices_table
    ∷ create_table sessions_table
    ∷ create_table services_table
    ∷ create_table sync_jobs_table
    ∷ create_table sync_conflicts_table
    ∷ create_table photo_backup_sessions_table
    ∷ create_table photos_table
    ∷ create_table shell_sessions_table
    ∷ create_table shell_history_table
    ∷ create_table config_table
    ∷ []

abbrev index : String → String → String → Statement
index name table col = create_index (record { name = name; table = table; column = col })

abbrev pub add_indexes : List Statement
add_indexes =
    index "idx_devices_address" "devices" "address"
    ∷ index "idx_devices_paired" "devices" "paired"
    ∷ index "idx_devices_trusted" "devices" "trusted"
    ∷ index "idx_sessions_device" "sessions" "device_id"
    ∷ index "idx_sessions_state" "sessions" "state"
    ∷ index "idx_services_session" "services" "session_id"
    ∷ index "idx_sync_jobs_enabled" "sync_jobs" "enabled"
    ∷ index "idx_sync_conflicts_job" "sync_conflicts" "job_id"
    ∷ index "idx_photos_session" "photos" "backup_session_id"
    ∷ index "idx_photos_hash" "photos" "hash"
    ∷ index "idx_shell_sessions_device" "shell_sessions" "device_id"
    ∷ index "idx_shell_history_session" "shell_history" "session_id"
    ∷ []
