-- ===== src/Core/Database/References.antt =====
-- Rows and the rows that they refer to (desktop/core/src/database.rs).
use bit_drive.Prelude.{
  ◌≡◌, ◌∙◌, sym, refl, ℕ, String, Bool, true, false, Option, List, [], ◌∷◌, ◌++◌, arith, Bool-cases,
  inl, inr, All, true≢false,
}
use bit_drive.Prelude.Eq.{eqb, string_eq, bytes_eq}
use bit_drive.Errors.{ProtocolError}
use bit_drive.Core.Database.Records.{DeviceRecord, SessionRecord, SyncJobRecord, SyncConflictRecord}
use bit_drive.Core.Database.Table.{delete_where, update_row, upsert_row}
use bit_drive.Core.Database.State.{
  Engine, Database, device_key, session_key, job_key, conflict_key, has_device, has_job,
}
use bit_drive.Core.Database.{set_device, upsert_device, create_session, update_session_state}
use bit_drive.Core.Database.Sync.{
  create_sync_job, update_sync_job_status, update_sync_job_last_sync, delete_sync_job,
  add_sync_conflict, resolve_sync_conflict,
}

unfoldable pub AreSessionsRooted : List DeviceRecord → List SessionRecord → Type 0
AreSessionsRooted devices sessions = All (λ s. has_device s.device_id devices ≡ true) sessions

unfoldable pub AreConflictsRooted : List SyncJobRecord → List SyncConflictRecord → Type 0
AreConflictsRooted jobs conflicts = All (λ c. has_job c.job_id jobs ≡ true) conflicts

-- Every session has its device and every conflict its job.
unfoldable pub IsIntact : Database → Type 0
unfolding AreSessionsRooted AreConflictsRooted
IsIntact db =
    AreSessionsRooted db.devices db.sessions × AreConflictsRooted db.sync_jobs db.sync_conflicts

-- The calls that write to these tables.
pub data Write : Type 0 where
  device :
      (id : List ℕ) (name : Option String) (address : String) (paired trusted : Bool)
      (psk : Option (List ℕ))
      → Write
  session :
      (id device_id : List ℕ) (protocol_version : String) (session_keys : List ℕ)
      (capabilities : String)
      → Write
  session_state : List ℕ → String → Write
  job : SyncJobRecord → Write
  job_status : String → String → Write
  job_last_sync : String → ℕ → Write
  job_delete : String → Write
  conflict : SyncConflictRecord → Write
  resolve : String → String → Write

unfoldable pub perform : Engine → Option ProtocolError → ℕ → Database → Write → Database
unfolding upsert_device create_session update_session_state create_sync_job update_sync_job_status
    update_sync_job_last_sync delete_sync_job add_sync_conflict resolve_sync_conflict
perform engine fault now db (device id name address paired trusted psk) =
    (upsert_device engine fault now db id name address paired trusted psk).0
perform engine fault now db (session id device_id version ks capabilities) =
    (create_session engine fault now db id device_id version ks capabilities).0
perform engine fault now db (session_state id state) =
    (update_session_state fault now db id state).0
perform engine fault now db (job j) = (create_sync_job engine fault db j).0
perform engine fault now db (job_status id status) =
    (update_sync_job_status fault now db id status).0
perform engine fault now db (job_last_sync id t) = (update_sync_job_last_sync fault now db id t).0
perform engine fault now db (job_delete id) = (delete_sync_job engine fault db id).0
perform engine fault now db (conflict c) = (add_sync_conflict engine fault db c).0
perform engine fault now db (resolve id strategy) = (resolve_sync_conflict fault db id strategy).0

pub has_device-upsert :
    (id k : List ℕ) (row : DeviceRecord) (rs : List DeviceRecord)
    → has_device id rs ≡ true
    → has_device id (upsert_row device_key k (set_device row) row rs) ≡ true
unfolding upsert_row set_device
has_device-upsert id k row [] h = absurd (true≢false (sym h))
has_device-upsert id k row (r ∷ rs) h = ground (arith, has_device-upsert id k row rs)

pub has_job-append :
    (id : String) (row : SyncJobRecord) (rs : List SyncJobRecord)
    → has_job id rs ≡ true
    → has_job id (rs ++ row ∷ []) ≡ true
has_job-append id row [] h = absurd (true≢false (sym h))
has_job-append id row (r ∷ rs) h = ground (arith, has_job-append id row rs)

pub has_job-update :
    (id k : String) (f : SyncJobRecord → SyncJobRecord) (rs : List SyncJobRecord)
    → ((r : SyncJobRecord) → (f r).id ≡ r.id)
    → has_job id (update_row job_key k f rs) ≡ has_job id rs
unfolding update_row
has_job-update id k f [] same = refl
has_job-update id k f (r ∷ rs) same = ground (arith, same r, has_job-update id k f rs same)

has_job-delete :
    (id k : String) (rs : List SyncJobRecord)
    → eqb id k ≡ false
    → has_job id (delete_where (λ r. eqb r.id k) rs) ≡ has_job id rs
unfolding delete_where
has_job-delete id k [] ne = refl
has_job-delete id k (r ∷ rs) ne = ground (
  arith,
  string_eq.beq_iff id k,
  string_eq.beq_iff r.id k,
  string_eq.beq_iff r.id id,
  has_job-delete id k rs,
)

-- The conflicts that a cascade leaves have a job other than the one that is deleted.
pub conflicts-delete :
    (k : String) (jobs : List SyncJobRecord) (cs : List SyncConflictRecord)
    → AreConflictsRooted jobs cs
    → AreConflictsRooted
        (delete_where (λ r. eqb r.id k) jobs)
        (delete_where (λ c. eqb c.job_id k) cs)
unfolding AreConflictsRooted delete_where
conflicts-delete k jobs [] h = tt
conflicts-delete k jobs (c ∷ cs) h = elim (Bool-cases (eqb c.job_id k)) [
  | inl gone ↦ rw gone (conflicts-delete k jobs cs h.1)
  | inr stays ↦
      rw stays (has_job-delete c.job_id k jobs stays ∙ h.0, conflicts-delete k jobs cs h.1)
]

pub sessions-update :
    (devices : List DeviceRecord) (k : List ℕ) (f : SessionRecord → SessionRecord)
    (ss : List SessionRecord)
    → ((s : SessionRecord) → (f s).device_id ≡ s.device_id)
    → AreSessionsRooted devices ss
    → AreSessionsRooted devices (update_row session_key k f ss)
unfolding AreSessionsRooted update_row
sessions-update devices k f [] same h = tt
sessions-update devices k f (s ∷ ss) same h = elim (Bool-cases (eqb s.id k)) [
  | inl hit ↦ rw hit (rw (same s) h.0, sessions-update devices k f ss same h.1)
  | inr other ↦ rw other (h.0, sessions-update devices k f ss same h.1)
]

pub conflicts-update :
    (jobs : List SyncJobRecord) (k : String) (f : SyncConflictRecord → SyncConflictRecord)
    (cs : List SyncConflictRecord)
    → ((c : SyncConflictRecord) → (f c).job_id ≡ c.job_id)
    → AreConflictsRooted jobs cs
    → AreConflictsRooted jobs (update_row conflict_key k f cs)
unfolding AreConflictsRooted update_row
conflicts-update jobs k f [] same h = tt
conflicts-update jobs k f (c ∷ cs) same h = elim (Bool-cases (eqb c.id k)) [
  | inl hit ↦ rw hit (rw (same c) h.0, conflicts-update jobs k f cs same h.1)
  | inr other ↦ rw other (h.0, conflicts-update jobs k f cs same h.1)
]
