-- ===== src/Core/Database/Migrations.antt =====
-- `run_migrations` of desktop/core/src/database.rs: every statement of a migration, what is recorded of
-- it, and the faults that any of the calls may meet.
use bit_drive.Prelude.{
  ℕ, suc, String, Bool, true, false, ◌&&◌, Option, none, some, List, [], ◌∷◌, ◌++◌, any, take, ◌==◌,
}
use bit_drive.Prelude.Eq.{eqb, string_eq}
use bit_drive.Errors.{Result, ok, err, panic, ProtocolError, database, io}
use bit_drive.Loop.{and_then, for_each}
use bit_drive.Core.Database.Schema.{
  Table, Index, Statement, create_table, create_index, initial_schema, add_indexes, config_table,
}

-- `applied` is the table schema_migrations: versions with their times.
pub record Schema : Type 0 where
  pub tables : List Table
  pub indexes : List Index
  pub applied : List (ℕ × ℕ)

-- What the calls of one migration meet, apart from a statement that does not fit the schema: a fault of the
-- query, of the batch after some statements, or of the row that records the version.
pub record Faults : Type 0 where
  pub checking : Option ProtocolError
  pub applying : Option (ℕ × ProtocolError)
  pub recording : Option ProtocolError

abbrev has_column : String → String → Table → Bool
has_column table col t = eqb t.name table && any (λ c. eqb c.name col) t.columns

-- `IF NOT EXISTS`
unfoldable pub make_table : (there : Bool) → Table → Schema → Schema × Result (Unit {0})
make_table true t s = (s, ok tt)
make_table false t s = (record s { tables = s.tables ++ t ∷ [] }, ok tt)

-- An index on a table or a column that is not there is an error; its text is SQLite's.
unfoldable pub make_index : (fits there : Bool) → Index → Schema → Schema × Result (Unit {0})
make_index false there i s = (s, err (database "no such table or column"))
make_index true true i s = (s, ok tt)
make_index true false i s = (record s { indexes = s.indexes ++ i ∷ [] }, ok tt)

unfoldable pub execute_statement : Schema → Statement → Schema × Result (Unit {0})
unfolding make_table make_index
execute_statement s (create_table t) = make_table (any (λ u. eqb u.name t.name) s.tables) t s
execute_statement s (create_index i) =
    make_index (any (has_column i.table i.column) s.tables) (any (λ u. eqb u.name i.name) s.indexes)
      i s

-- `execute_batch`
unfoldable pub execute_batch : List Statement → Schema → Schema × Result (Unit {0})
unfolding execute_statement for_each
execute_batch xs s = for_each (λ x. λ t. execute_statement t x) xs s

unfoldable pub interrupted : ProtocolError → Schema × Result (Unit {0}) → Schema × Result (Unit {0})
interrupted e (s, ok _) = (s, err e)
interrupted e (s, err d) = (s, err d)
interrupted e (s, panic) = (s, panic)

-- A batch that SQLite may break off after some statements.
unfoldable pub apply_migration :
    Option (ℕ × ProtocolError) → List Statement → Schema → Schema × Result (Unit {0})
unfolding execute_batch interrupted
apply_migration none xs s = execute_batch xs s
apply_migration (some (n, e)) xs s = interrupted e (execute_batch (take n xs) s)

abbrev pub migrations : List (List Statement)
migrations =
    initial_schema ∷ add_indexes ∷ (create_table config_table ∷ []) ∷ [] ∷ [] ∷ [] ∷ [] ∷ []

unfoldable pub is_applied : ℕ → Schema → Bool
is_applied version s = any (λ row. row.0 == version) s.applied

unfoldable pub with_fault :
    Option ProtocolError → Schema → Schema × Result (Unit {0}) → Schema × Result (Unit {0})
with_fault none s done = done
with_fault (some e) s done = (s, err e)

-- `INSERT INTO schema_migrations`
unfoldable pub record_version :
    Option ProtocolError → (now version : ℕ) → Schema → Schema × Result (Unit {0})
unfolding with_fault
record_version fault now version s =
    with_fault fault s (record s { applied = s.applied ++ (version, now) ∷ [] }, ok tt)

-- The rest of a turn, for whether the version is recorded.
unfoldable pub turn :
    Faults → (now version : ℕ) → List Statement → Schema → Bool → Schema × Result (Unit {0})
unfolding apply_migration record_version and_then
turn faults now version migration s true = (s, ok tt)
turn faults now version migration s false =
    and_then (apply_migration faults.applying migration s)
      (λ t. record_version faults.recording now version t)

unfoldable pub migrate_one :
    Faults → (now version : ℕ) → List Statement → Schema → Schema × Result (Unit {0})
unfolding with_fault is_applied turn
migrate_one faults now version migration s =
    with_fault faults.checking s (turn faults now version migration s (is_applied version s))

-- The loop, from a version on.
unfoldable pub migrate_from :
    (ℕ → Faults) → (now version : ℕ) → List (List Statement) → Schema → Schema × Result (Unit {0})
unfolding migrate_one and_then
migrate_from faults now version [] s = (s, ok tt)
migrate_from faults now version (m ∷ ms) s =
    and_then (migrate_one (faults version) now version m s)
      (λ t. migrate_from faults now (suc version) ms t)

-- `created` is the fault of the statement that makes the table schema_migrations.
unfoldable pub run_migrations :
    (created : Option ProtocolError)
    → (ℕ → Faults)
    → (now : ℕ) → Schema
    → Schema × Result (Unit {0})
unfolding migrate_from with_fault
run_migrations created faults now s = with_fault created s (migrate_from faults now 1 migrations s)

-- `conn` is the fault of the pool when it is asked for a connection.
unfoldable pub migrate :
    (conn created : Option ProtocolError)
    → (ℕ → Faults)
    → (now : ℕ) → Schema
    → Schema × Result (Unit {0})
unfolding run_migrations with_fault
migrate conn created faults now s = with_fault conn s (run_migrations created faults now s)

-- `Database::new` on the file that holds `s`: `directory` is the error of `create_dir_all` for the
-- parent, `pool` that of building the pool.
unfoldable pub new :
    (directory : Option String)
    → (pool conn created : Option ProtocolError) → (ℕ → Faults)
    → (now : ℕ) → Schema
    → Schema × Result (Unit {0})
unfolding migrate with_fault
new (some e) pool conn created faults now s = (s, err (io e))
new none pool conn created faults now s = with_fault pool s (migrate conn created faults now s)
