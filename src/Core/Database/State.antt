-- ===== src/Core/Database/State.antt =====
-- The state of `Database` of desktop/core/src/database.rs and what its statements share. `fault` is the
-- error of a call that fails in the pool or in SQLite other than on a constraint.
use bit_drive.Prelude.{ℕ, String, Bool, Option, none, some, List, any, if◌then◌else◌}
use bit_drive.Prelude.Eq.{eqb, string_eq, bytes_eq}
use bit_drive.Errors.{Result, ok, err, ProtocolError, database}
use bit_drive.Core.Database.Records.{
  DeviceRecord, SessionRecord, ConfigRecord, SyncJobRecord, SyncConflictRecord,
}

-- Whether foreign keys are enforced, and the texts of the constraint errors.
pub record Engine : Type 0 where
  pub foreign_keys : Bool
  pub unique_text : String → String
  pub foreign_text : String

pub record Database : Type 0 where
  pub devices : List DeviceRecord
  pub sessions : List SessionRecord
  pub config : List ConfigRecord
  pub sync_jobs : List SyncJobRecord
  pub sync_conflicts : List SyncConflictRecord

abbrev pub device_key : DeviceRecord → List ℕ
device_key r = r.id

abbrev pub session_key : SessionRecord → List ℕ
session_key r = r.id

abbrev pub config_key : ConfigRecord → String
config_key r = r.key

abbrev pub job_key : SyncJobRecord → String
job_key r = r.id

abbrev pub conflict_key : SyncConflictRecord → String
conflict_key r = r.id

-- `conn.execute(..).map_err(Self::db_err)?; Ok(())`
unfoldable pub execute :
    Option ProtocolError → Database → Database × Result (Unit {0}) → Database × Result (Unit {0})
execute none db done = done
execute (some e) db done = (db, err e)

-- `conn.query_row(..)` and `stmt.query_map(..)`
unfoldable pub query {ℓ} : {A : Type ℓ} → Option ProtocolError → A → Result A
query none a = ok a
query (some e) a = err e

-- A constraint that fails changes nothing.
unfoldable pub checked :
    Bool → String → Database → Database × Result (Unit {0}) → Database × Result (Unit {0})
checked broken text before done = if broken then (before, err (database text)) else done

unfoldable pub constrained : Bool → String → Database → Database → Database × Result (Unit {0})
constrained broken text before after =
    if broken then (before, err (database text)) else (after, ok tt)

abbrev pub has_device : List ℕ → List DeviceRecord → Bool
has_device id rs = any (λ r. eqb r.id id) rs

abbrev pub has_job : String → List SyncJobRecord → Bool
has_job id rs = any (λ r. eqb r.id id) rs
