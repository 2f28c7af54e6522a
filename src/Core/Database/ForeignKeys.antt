-- ===== src/Core/Database/ForeignKeys.antt =====
-- What SQLite does for the `FOREIGN KEY` clauses that the first migration of
-- desktop/core/src/database.rs declares, where it enforces them: a row is refused when it refers to a
-- row that is not there, and deleting a row takes the rows that refer to it with it, or is refused.
use bit_drive.Prelude.{ℕ, String, Bool, true, false, not, ◌&&◌, List, [], ◌∷◌, any, if◌then◌else◌}
use bit_drive.Prelude.Eq.{eqb, string_eq, bytes_eq}
use bit_drive.Core.Database.Schema.{
  Reference, Statement, create_table, create_index, initial_schema,
}
use bit_drive.Core.Database.State.{Engine, Database, has_device, has_job}

-- `NULL` refers to nothing.
pub data Value : Type 0 where
  blob_value : List ℕ → Value
  text_value : String → Value
  null_value : Value

abbrev is_value : Value → Value → Bool
is_value (blob_value a) (blob_value b) = eqb a b
is_value (text_value a) (text_value b) = eqb a b
is_value _ _ = false

-- The columns of a row that refer to another table.
abbrev pub session_value : (device_id : List ℕ) → String → Value
session_value device_id column = if eqb column "device_id" then blob_value device_id else null_value

abbrev pub conflict_value : (job_id : String) → String → Value
conflict_value job_id column = if eqb column "job_id" then text_value job_id else null_value

-- The `FOREIGN KEY` clauses of a table.
abbrev references_in : String → List Statement → List Reference
references_in name [] = []
references_in name (create_table t ∷ statements) =
    let rest = references_in name statements in if eqb t.name name then t.references else rest
references_in name (create_index i ∷ statements) = references_in name statements

-- Whether a row of the table has the value in the column that is referred to.
abbrev is_there : Database → (table target : String) → Value → Bool
is_there db table target (blob_value id) =
    if eqb table "devices" && eqb target "id" then has_device id db.devices else false
is_there db table target (text_value id) =
    if eqb table "sync_jobs" && eqb target "id" then has_job id db.sync_jobs else false
is_there db table target null_value = true

-- A row of `table` with these values refers to a row that is not there.
abbrev pub is_dangling : Engine → Database → (table : String) → (String → Value) → Bool
is_dangling engine db table value =
    engine.foreign_keys
    && any (λ r. not (is_there db r.table r.target (value r.column)))
        (references_in table initial_schema)

-- A row of `table` with these values refers to the row of `parent` with this key, by a clause with
-- `ON DELETE CASCADE` or by one without.
abbrev pub refers :
    Engine
    → (cascades : Bool) (table : String) → (String → Value)
    → (parent : String) (key : Value) → Bool
refers engine cascades table value parent key =
    engine.foreign_keys
    && any
        (λ r.
          eqb r.table parent
          && eqb r.target "id"
          && (if cascades then r.cascades else not r.cascades)
          && is_value (value r.column) key)
        (references_in table initial_schema)
