-- ===== src/Core/Database/Values.antt =====
-- The settings table of desktop/core/src/database.rs against a function of the key.
use bit_drive.Prelude.{
  ◌≡◌, ◌∙◌, sym, ap, refl, ℕ, String, Bool, not, Option, none, some, List, [], ◌∷◌, if◌then◌else◌,
  arith,
}
use mathlib.Core.Option.{map as option_map}
use bit_drive.Prelude.Eq.{eqb, string_eq, bytes_eq}
use bit_drive.Prelude.Keys.{IsUnique}
use bit_drive.Errors.{ok, ProtocolError}
use bit_drive.Core.Database.Records.{ConfigRecord}
use bit_drive.Core.Database.Table.{
  find_row-key, find_row, key_column, upserted, spared, find_row-upsert_row, upsert_row-IsUnique,
  delete_where-IsUnique, find_row-delete_where,
}
use bit_drive.Core.Database.State.{Database, config_key, execute, query}
use bit_drive.Core.Database.{set_config_row, set_config, get_config, is_deletable, delete_config}

pub data Command : Type 0 where
  put : (key value : String) (description : Option String) (read_only secret : Bool) → Command
  delete : String → Command

-- A call with its fault, if it has one, and its clock.
pub record Call : Type 0 where
  pub command : Command
  pub fault : Option ProtocolError
  pub now : ℕ

abbrev pub View : Type 0
View = String → Option ConfigRecord

-- The same entry whether it replaces one or is new.
abbrev pub entry :
    (now : ℕ) (key value : String) (description : Option String) (read_only secret : Bool)
    → ConfigRecord
entry now key value description read_only secret = record {
  key = key;
  value = value;
  description = description;
  read_only = read_only;
  secret = secret;
  updated_at = now;
}

-- What a call that succeeds means: a later entry replaces an earlier one, read-only or not; only an
-- entry that is not read-only is deleted.
unfoldable pub act : (now : ℕ) → View → Command → View
act now view (put k v d ro secret) j = if eqb k j then some (entry now k v d ro secret) else view j
act now view (delete k) j = if eqb k j then spared (λ r. not r.read_only) (view j) else view j

unfoldable pub step : View → Call → View
unfolding act
step view call = elim call.fault [ none ↦ act call.now view call.command | some e ↦ view ]

unfoldable pub replay : View → List Call → View
unfolding step
replay view [] = view
replay view (c ∷ cs) = replay (step view c) cs

unfoldable pub view_of : Database → View
view_of db j = find_row config_key j db.config

unfoldable pub serve_command : Option ProtocolError → ℕ → Database → Command → Database
unfolding set_config delete_config
serve_command fault now db (put k v d ro secret) = (set_config fault now db k v d ro secret).0
serve_command fault now db (delete k) = (delete_config fault db k).0

unfoldable pub serve : Database → Call → Database
unfolding serve_command
serve db call = serve_command call.fault call.now db call.command

unfoldable pub serve_all : Database → List Call → Database
unfolding serve
serve_all db [] = db
serve_all db (c ∷ cs) = serve_all (serve db c) cs

serve_command-IsUnique :
    (fault : Option ProtocolError) (now : ℕ) (db : Database) (c : Command)
    → IsUnique (key_column config_key db.config)
    → IsUnique (key_column config_key (serve_command fault now db c).config)
unfolding serve_command set_config delete_config execute set_config_row
serve_command-IsUnique none now db (put k v d ro secret) u =
    upsert_row-IsUnique config_key k (set_config_row (entry now k v d ro secret))
      (entry now k v d ro secret) db.config (λ r. refl) refl u
serve_command-IsUnique none now db (delete k) u =
    delete_where-IsUnique config_key (is_deletable k) db.config u
serve_command-IsUnique (some e) now db (put k v d ro secret) u = u
serve_command-IsUnique (some e) now db (delete k) u = u

upserted-entry :
    (k : String) (new : ConfigRecord) (found : Option ConfigRecord)
    → new.key ≡ k
    → ((r : ConfigRecord) → found ≡ some r → r.key ≡ k)
    → upserted (set_config_row new) new found ≡ new
unfolding set_config_row
upserted-entry k new none here h = refl
upserted-entry k new (some r) here h = ap (λ x. record new { key = x }) (h r refl ∙ sym here)

spared-entry :
    (k j : String) (found : Option ConfigRecord)
    → ((r : ConfigRecord) → found ≡ some r → r.key ≡ j)
    → spared (is_deletable k) found
      ≡ (if eqb k j then spared (λ r. not r.read_only) found else found)
spared-entry k j none h = ground arith
spared-entry k j (some r) h =
    ground (arith, h r refl, string_eq.beq_iff k j, string_eq.beq_iff r.key k)

serve_command-act :
    (now : ℕ) (db : Database) (c : Command) (j : String)
    → IsUnique (key_column config_key db.config)
    → view_of (serve_command none now db c) j ≡ act now (view_of db) c j
unfolding serve_command set_config delete_config execute set_config_row view_of act
serve_command-act now db (put k v d ro secret) j u =
    let new = entry now k v d ro secret in
    find_row-upsert_row config_key k j (set_config_row new) new db.config (λ r. refl) refl
    ∙ ap (λ x. if eqb k j then some x else find_row config_key j db.config)
        (upserted-entry k new (find_row config_key k db.config) refl
          (find_row-key config_key k db.config))
serve_command-act now db (delete k) j u =
    find_row-delete_where config_key (is_deletable k) j db.config u
    ∙ spared-entry k j (find_row config_key j db.config) (find_row-key config_key j db.config)

act-agree :
    (now : ℕ) (v u : View) (c : Command)
    → ((j : String) → v j ≡ u j)
    → (j : String) → act now v c j ≡ act now u c j
unfolding act
act-agree now v u (put k x d ro secret) h j = rw (h j) refl
act-agree now v u (delete k) h j = rw (h j) refl

step-agree :
    (v u : View) (fault : Option ProtocolError) (now : ℕ) (c : Command)
    → ((j : String) → v j ≡ u j)
    → (j : String)
    → step v (record { command = c; fault = fault; now = now }) j
      ≡ step u (record { command = c; fault = fault; now = now }) j
unfolding step
step-agree v u none now c h j = act-agree now v u c h j
step-agree v u (some e) now c h j = h j

replay-agree :
    (v u : View) (cs : List Call)
    → ((j : String) → v j ≡ u j)
    → (j : String) → replay v cs j ≡ replay u cs j
unfolding replay
replay-agree v u [] h j = h j
replay-agree v u (c ∷ cs) h j =
    replay-agree (step v c) (step u c) cs (step-agree v u c.fault c.now c.command h) j

serve_command_fault :
    (e : ProtocolError) (now : ℕ) (db : Database) (c : Command)
    → serve_command (some e) now db c ≡ db
unfolding serve_command set_config delete_config execute
serve_command_fault e now db (put k v d ro secret) = refl
serve_command_fault e now db (delete k) = refl

serve-step :
    (db : Database) (fault : Option ProtocolError) (now : ℕ) (c : Command) (j : String)
    → IsUnique (key_column config_key db.config)
    → view_of (serve_command fault now db c) j
      ≡ step (view_of db) (record { command = c; fault = fault; now = now }) j
unfolding step
serve-step db none now c j u = serve_command-act now db c j u
serve-step db (some e) now c j u = ap (λ d. view_of d j) (serve_command_fault e now db c)

-- On a settings table that holds each key once, reading an entry after any sequence of `set_config` and
-- `delete_config` gives what the sequence gives on a function from keys to entries, where setting
-- overwrites an entry whether it is read-only or not, deleting spares a read-only entry, and a call
-- that fails in the pool or in SQLite does nothing; and each key is still held once.
pub view_of-serve_all :
    (db : Database) (cs : List Call)
    → IsUnique (key_column config_key db.config)
    → ((j : String) → view_of (serve_all db cs) j ≡ replay (view_of db) cs j)
      × ((j : String)
          → get_config none (serve_all db cs) j
            ≡ ok (option_map (λ r. r.value) (replay (view_of db) cs j)))
      × IsUnique (key_column config_key (serve_all db cs).config)
unfolding serve_all replay serve get_config query view_of
view_of-serve_all db [] u = (λ j. refl, λ j. refl, u)
view_of-serve_all db (c ∷ cs) u =
    let rest =
      view_of-serve_all (serve db c) cs (serve_command-IsUnique c.fault c.now db c.command u) in
    let agreed : (j : String)
        → replay (view_of (serve db c)) cs j ≡ replay (step (view_of db) c) cs j =
      replay-agree (view_of (serve db c)) (step (view_of db) c) cs
        (λ i. serve-step db c.fault c.now c.command i u) in
    (
      λ j. rest.0 j ∙ agreed j,
      λ j. rest.1 j ∙ ap (λ x. ok (option_map (λ r. r.value) x)) (agreed j),
      rest.2,
    )
