-- ===== src/Core/Database/Sync.antt =====
-- The synchronisation jobs and their conflicts (desktop/core/src/database.rs).
use bit_drive.Prelude.{ℕ, String, Bool, true, false, ◌&&◌, Option, some, List, [], ◌∷◌, ◌++◌, any}
use bit_drive.Prelude.Eq.{eqb, string_eq, bytes_eq}
use bit_drive.Errors.{Result, ok, ProtocolError}
use bit_drive.Core.Database.Records.{SyncJobRecord, SyncConflictRecord}
use bit_drive.Core.Database.Table.{select_where, delete_where, find_row, update_row}
use bit_drive.Core.Database.ForeignKeys.{text_value, conflict_value, is_dangling, refers}
use bit_drive.Core.Database.State.{
  Engine, Database, job_key, conflict_key, execute, query, checked, constrained, has_job,
}

-- The status and the statistics of the record are not written.
unfoldable pub create_sync_job :
    Engine → Option ProtocolError → Database → SyncJobRecord → Database × Result (Unit {0})
unfolding execute
create_sync_job engine fault db job = execute fault db (
    constrained (has_job job.id db.sync_jobs) (engine.unique_text "sync_jobs.id") db
      (record db { sync_jobs = db.sync_jobs ++ record job { status = "idle"; stats = "{}" } ∷ [] }))

unfoldable pub get_sync_job :
    Option ProtocolError → Database → String → Result (Option SyncJobRecord)
unfolding query find_row
get_sync_job fault db job_id = query fault (find_row job_key job_id db.sync_jobs)

unfoldable pub list_sync_jobs : Option ProtocolError → Database → Result (List SyncJobRecord)
unfolding query
list_sync_jobs fault db = query fault db.sync_jobs

unfoldable pub update_sync_job_status :
    Option ProtocolError → (now : ℕ) → Database → String → String → Database × Result (Unit {0})
unfolding execute update_row
update_sync_job_status fault now db job_id status = execute fault db (
  record db {
    sync_jobs =
        update_row job_key job_id (λ r. record r { status = status; updated_at = now })
          db.sync_jobs;
  },
  ok tt,
)

unfoldable pub update_sync_job_last_sync :
    Option ProtocolError → (now : ℕ) → Database → String → ℕ → Database × Result (Unit {0})
unfolding execute update_row
update_sync_job_last_sync fault now db job_id last_sync = execute fault db (
  record db {
    sync_jobs =
        update_row job_key job_id (λ r. record r { last_sync = some last_sync; updated_at = now })
          db.sync_jobs;
  },
  ok tt,
)

-- The job, when it is there, takes the conflicts with it that refer to it with `ON DELETE CASCADE`; one
-- that refers to it without makes the statement fail.
unfoldable pub delete_sync_job :
    Engine → Option ProtocolError → Database → String → Database × Result (Unit {0})
unfolding execute delete_where
delete_sync_job engine fault db job_id =
    let refers_by : Bool → SyncConflictRecord → Bool = λ cascades. λ c.
      has_job job_id db.sync_jobs
      && refers engine cascades "sync_conflicts" (conflict_value c.job_id) "sync_jobs"
          (text_value job_id) in
    execute fault db (
      constrained (any (refers_by false) db.sync_conflicts) engine.foreign_text db (record db {
        sync_jobs = delete_where (λ r. eqb r.id job_id) db.sync_jobs;
        sync_conflicts = delete_where (refers_by true) db.sync_conflicts;
      }))

-- A conflict is written as not resolved.
unfoldable pub add_sync_conflict :
    Engine → Option ProtocolError → Database → SyncConflictRecord → Database × Result (Unit {0})
unfolding execute
add_sync_conflict engine fault db conflict = execute fault db (
    checked (any (λ r. eqb r.id conflict.id) db.sync_conflicts)
      (engine.unique_text "sync_conflicts.id") db
      (constrained (is_dangling engine db "sync_conflicts" (conflict_value conflict.job_id))
        engine.foreign_text db
        (record db {
          sync_conflicts = db.sync_conflicts ++ record conflict { resolved = false } ∷ [];
        })))

unfoldable pub get_sync_conflicts :
    Option ProtocolError → Database → String → Result (List SyncConflictRecord)
unfolding query select_where
get_sync_conflicts fault db job_id =
    query fault (select_where (λ r. eqb r.job_id job_id) db.sync_conflicts)

unfoldable pub resolve_sync_conflict :
    Option ProtocolError → Database → String → String → Database × Result (Unit {0})
unfolding execute update_row
resolve_sync_conflict fault db conflict_id strategy = execute fault db (
  record db {
    sync_conflicts =
        update_row conflict_key conflict_id
          (λ r. record r { resolved = true; resolution_strategy = strategy }) db.sync_conflicts;
  },
  ok tt,
)
