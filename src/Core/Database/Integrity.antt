-- ===== src/Core/Database/Integrity.antt =====
-- References between the tables (desktop/core/src/database.rs).
use bit_drive.Prelude.{
  ◌≡◌, ◌∙◌, refl, ℕ, String, Bool, true, false, ◌&&◌, Bool-cases, inl, inr, Option, none, some,
  List, [], ◌∷◌, arith, All-map, All-append,
}
use bit_drive.Prelude.Eq.{eqb, string_eq, bytes_eq}
use bit_drive.Errors.{Result, ProtocolError}
use bit_drive.Core.Database.Records.{SyncJobRecord, SyncConflictRecord}
use bit_drive.Core.Database.Table.{delete_where}
use bit_drive.Core.Database.ForeignKeys.{
  text_value, session_value, conflict_value, is_dangling, refers,
}
use bit_drive.Core.Database.State.{
  has_device, has_job, Engine, Database, execute, checked, constrained,
}
use bit_drive.Core.Database.{upsert_device, create_session, update_session_state}
use bit_drive.Core.Database.Sync.{
  create_sync_job, update_sync_job_status, update_sync_job_last_sync, delete_sync_job,
  add_sync_conflict, resolve_sync_conflict,
}
use bit_drive.Core.Database.References.{
  device, session, session_state, job, job_status, job_last_sync, job_delete, conflict, resolve,
  AreSessionsRooted, AreConflictsRooted, IsIntact, Write, perform, has_device-upsert,
  has_job-append, has_job-update, conflicts-delete, sessions-update, conflicts-update,
}

-- What a statement under a constraint leaves.
constrained-IsIntact :
    (broken : Bool) (text : String) (before after : Database)
    → IsIntact before
    → (broken ≡ false → IsIntact after)
    → IsIntact (constrained broken text before after).0
unfolding constrained
constrained-IsIntact true text before after h k = h
constrained-IsIntact false text before after h k = k refl

checked-IsIntact :
    (broken : Bool) (text : String) (before : Database) (done : Database × Result (Unit {0}))
    → IsIntact before
    → (broken ≡ false → IsIntact done.0)
    → IsIntact (checked broken text before done).0
unfolding checked
checked-IsIntact true text before done h k = h
checked-IsIntact false text before done h k = k refl

-- The clause of the table of sessions, and that of the table of conflicts.
session_rooted :
    (engine : Engine) (db : Database) (id : List ℕ)
    → engine.foreign_keys ≡ true
    → is_dangling engine db "sessions" (session_value id) ≡ false
    → has_device id db.devices ≡ true
session_rooted engine db id on loose = ground arith

conflict_rooted :
    (engine : Engine) (db : Database) (id : String)
    → engine.foreign_keys ≡ true
    → is_dangling engine db "sync_conflicts" (conflict_value id) ≡ false
    → has_job id db.sync_jobs ≡ true
conflict_rooted engine db id on loose = ground arith

-- Deleting a job takes exactly the conflicts of that job.
refers_same :
    (engine : Engine) (k id : String) (jobs : List SyncJobRecord)
    → engine.foreign_keys ≡ true
    → has_job id jobs ≡ true
    → (has_job k jobs
        && refers engine true "sync_conflicts" (conflict_value id) "sync_jobs" (text_value k))
      ≡ eqb id k
refers_same engine k id jobs on there = elim (Bool-cases (eqb id k)) [
  | inl same ↦
      let here : has_job k jobs ≡ true = rw ((string_eq.beq_iff id k).0 same) at there in
      rw (here, on, same) refl
  | inr other ↦ ground arith
]

cascade-IsRooted :
    (engine : Engine) (k : String) (jobs left : List SyncJobRecord) (cs : List SyncConflictRecord)
    → engine.foreign_keys ≡ true
    → AreConflictsRooted jobs cs
    → AreConflictsRooted left (delete_where (λ c. eqb c.job_id k) cs)
    → AreConflictsRooted left (
        delete_where
          (λ c.
            has_job k jobs
            && refers engine true "sync_conflicts"
                (conflict_value c.job_id)
                "sync_jobs"
                (text_value k))
          cs)
unfolding AreConflictsRooted delete_where
cascade-IsRooted engine k jobs left [] on h g = tt
cascade-IsRooted engine k jobs left (c ∷ cs) on h g = elim (Bool-cases (eqb c.job_id k)) [
  | inl gone ↦
      rw (refers_same engine k c.job_id jobs on h.0, gone)
        (cascade-IsRooted engine k jobs left cs on h.1 (rw gone at g))
  | inr stays ↦
      let kept = rw stays at g in
      rw (refers_same engine k c.job_id jobs on h.0, stays)
        (kept.0, cascade-IsRooted engine k jobs left cs on h.1 kept.1)
]

perform-IsIntact :
    (engine : Engine) (now : ℕ) (db : Database) (w : Write)
    → engine.foreign_keys ≡ true
    → IsIntact db
    → IsIntact (perform engine none now db w)
unfolding perform upsert_device create_session update_session_state create_sync_job
    update_sync_job_status update_sync_job_last_sync delete_sync_job add_sync_conflict
    resolve_sync_conflict execute IsIntact AreSessionsRooted AreConflictsRooted
perform-IsIntact engine now db (device id name address paired trusted psk) on h =
    constrained-IsIntact _ _ db _ h (λ free.
      (All-map _ _ db.sessions (λ s. has_device-upsert s.device_id id _ db.devices) h.0, h.1))
perform-IsIntact engine now db (session id device_id version ks capabilities) on h =
    checked-IsIntact _ _ db _ h (λ fresh. constrained-IsIntact _ _ db _ h (λ loose.
      (All-append _ db.sessions _ h.0 (session_rooted engine db device_id on loose), h.1)))
perform-IsIntact engine now db (session_state id state) on h =
    (sessions-update db.devices id _ db.sessions (λ s. refl) h.0, h.1)
perform-IsIntact engine now db (job j) on h =
    constrained-IsIntact _ _ db _ h (λ free.
      (h.0, All-map _ _ db.sync_conflicts (λ c. has_job-append c.job_id _ db.sync_jobs) h.1))
perform-IsIntact engine now db (job_status id status) on h = (
  h.0,
  All-map _ _ db.sync_conflicts
      (λ c. λ p. has_job-update c.job_id id _ db.sync_jobs (λ r. refl) ∙ p) h.1,
)
perform-IsIntact engine now db (job_last_sync id t) on h = (
  h.0,
  All-map _ _ db.sync_conflicts
      (λ c. λ p. has_job-update c.job_id id _ db.sync_jobs (λ r. refl) ∙ p) h.1,
)
perform-IsIntact engine now db (job_delete id) on h = constrained-IsIntact _ _ db _ h (λ free. (
  h.0,
  cascade-IsRooted engine id db.sync_jobs (delete_where (λ r. eqb r.id id) db.sync_jobs)
      db.sync_conflicts on h.1 (conflicts-delete id db.sync_jobs db.sync_conflicts h.1),
))
perform-IsIntact engine now db (conflict c) on h = checked-IsIntact _ _ db _ h (λ fresh.
    constrained-IsIntact _ _ db _ h (λ loose.
      (h.0, All-append _ db.sync_conflicts _ h.1 (conflict_rooted engine db c.job_id on loose))))
perform-IsIntact engine now db (resolve id strategy) on h =
    (h.0, conflicts-update db.sync_jobs id _ db.sync_conflicts (λ c. refl) h.1)

perform_fault :
    (engine : Engine) (e : ProtocolError) (now : ℕ) (db : Database) (w : Write)
    → perform engine (some e) now db w ≡ db
unfolding perform upsert_device create_session update_session_state create_sync_job
    update_sync_job_status update_sync_job_last_sync delete_sync_job add_sync_conflict
    resolve_sync_conflict execute
perform_fault engine e now db (device id name address paired trusted psk) = refl
perform_fault engine e now db (session id device_id version ks capabilities) = refl
perform_fault engine e now db (session_state id state) = refl
perform_fault engine e now db (job j) = refl
perform_fault engine e now db (job_status id status) = refl
perform_fault engine e now db (job_last_sync id t) = refl
perform_fault engine e now db (job_delete id) = refl
perform_fault engine e now db (conflict c) = refl
perform_fault engine e now db (resolve id strategy) = refl

-- A call with its fault, if it has one, and its clock.
pub record Call : Type 0 where
  pub write : Write
  pub fault : Option ProtocolError
  pub now : ℕ

unfoldable pub perform_all : Engine → Database → List Call → Database
unfolding perform
perform_all engine db [] = db
perform_all engine db (c ∷ cs) = perform_all engine (perform engine c.fault c.now db c.write) cs

perform_any-IsIntact :
    (engine : Engine) (fault : Option ProtocolError) (now : ℕ) (db : Database) (w : Write)
    → engine.foreign_keys ≡ true
    → IsIntact db
    → IsIntact (perform engine fault now db w)
perform_any-IsIntact engine none now db w on h = perform-IsIntact engine now db w on h
perform_any-IsIntact engine (some e) now db w on h = rw (perform_fault engine e now db w) h

-- Where SQLite enforces the foreign keys that the tables of the first migration declare, after any
-- sequence of the calls that write devices, sessions, jobs and conflicts, faults included, on a
-- database in which every session has its device and every conflict its job, that still holds.
pub perform_all-IsIntact :
    (engine : Engine) (db : Database) (cs : List Call)
    → engine.foreign_keys ≡ true
    → IsIntact db
    → IsIntact (perform_all engine db cs)
unfolding perform_all
perform_all-IsIntact engine db [] on h = h
perform_all-IsIntact engine db (c ∷ cs) on h =
    perform_all-IsIntact engine (perform engine c.fault c.now db c.write) cs on
      (perform_any-IsIntact engine c.fault c.now db c.write on h)
