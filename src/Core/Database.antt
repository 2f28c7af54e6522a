-- ===== src/Core/Database.antt =====
-- `Database` of desktop/core/src/database.rs: devices, sessions and settings. SQLite is third-party: the
-- statements that the source writes out are read as operations on lists of rows. The clock is an
-- argument.
pub mod Records
pub mod Table
pub mod State
pub mod ForeignKeys
pub mod Sync
pub mod Values
pub mod Devices
pub mod References
pub mod Integrity
pub mod Schema
pub mod Migrations
pub mod InEffect
pub mod Turns
pub mod Upgrades
use bit_drive.Prelude.{
  ℕ, String, Bool, true, false, not, ◌&&◌, ◌||◌, Option, none, some, List, [], ◌∷◌, ◌++◌, any, ◌==◌,
  if◌then◌else◌,
}
use mathlib.Core.Option.{map as option_map}
use bit_drive.Prelude.Eq.{eqb, string_eq, bytes_eq}
use bit_drive.Errors.{Result, ok, err, ProtocolError, database}
use bit_drive.Core.Database.Records.{
  DeviceRecord, SessionRecord, ConfigRecord, SyncJobRecord, SyncConflictRecord,
}
use bit_drive.Core.Database.Table.{
  select_where, delete_where, find_row, key_column, update_row, upsert_row,
}
use bit_drive.Core.Database.State.{
  Engine, Database, device_key, session_key, config_key, job_key, conflict_key, execute, query,
  checked, constrained,
}
use bit_drive.Core.Database.ForeignKeys.{session_value, is_dangling}

-- `UNIQUE` on the address, for the row that is written under this identifier
unfoldable pub is_address_taken : List ℕ → String → List DeviceRecord → Bool
is_address_taken id address rs = any (λ r. not (eqb r.id id) && eqb r.address address) rs

unfoldable pub set_device : DeviceRecord → DeviceRecord → DeviceRecord
set_device excluded r = record r {
  name = excluded.name;
  address = excluded.address;
  paired = excluded.paired;
  trusted = excluded.trusted;
  psk = excluded.psk;
  last_seen = excluded.last_seen;
}

unfoldable pub upsert_device :
    Engine
    → Option ProtocolError
    → (now : ℕ) → Database
    → (device_id : List ℕ) (name : Option String) (address : String) (paired trusted : Bool)
      (psk : Option (List ℕ))
    → Database × Result (Unit {0})
unfolding execute upsert_row set_device is_address_taken
upsert_device engine fault now db device_id name address paired trusted psk =
    let row : DeviceRecord = record {
      id = device_id;
      name = name;
      address = address;
      paired = paired;
      trusted = trusted;
      psk = psk;
      last_seen = some now;
      created_at = now;
      metadata = "{}";
    } in
    execute fault db (
      constrained (is_address_taken device_id address db.devices)
        (engine.unique_text "devices.address") db
        (record db { devices = upsert_row device_key device_id (set_device row) row db.devices }))

unfoldable pub get_device : Option ProtocolError → Database → List ℕ → Result (Option DeviceRecord)
unfolding query find_row
get_device fault db device_id = query fault (find_row device_key device_id db.devices)

unfoldable pub get_paired_devices : Option ProtocolError → Database → Result (List DeviceRecord)
unfolding query select_where
get_paired_devices fault db = query fault (select_where (λ r. r.paired) db.devices)

unfoldable pub create_session :
    Engine
    → Option ProtocolError
    → (now : ℕ) → Database
    → (session_id device_id : List ℕ) (protocol_version : String) (session_keys : List ℕ)
      (capabilities : String)
    → Database × Result (Unit {0})
unfolding execute
create_session engine fault now db session_id device_id protocol_version session_keys capabilities =
    execute fault db (
      checked (any (λ r. eqb r.id session_id) db.sessions) (engine.unique_text "sessions.id") db (
        constrained (is_dangling engine db "sessions" (session_value device_id)) engine.foreign_text
          db
          (record db {
            sessions =
                db.sessions
                ++ record {
                  id = session_id;
                  device_id = device_id;
                  protocol_version = protocol_version;
                  session_keys = session_keys;
                  capabilities = capabilities;
                  state = "opening";
                  created_at = now;
                  last_activity = now;
                  bytes_sent = 0;
                  bytes_received = 0;
                }
                  ∷ [];
          })))

unfoldable pub update_session_state :
    Option ProtocolError → (now : ℕ) → Database → List ℕ → String → Database × Result (Unit {0})
unfolding execute update_row
update_session_state fault now db session_id state = execute fault db (
  record db {
    sessions =
        update_row session_key session_id (λ r. record r { state = state; last_activity = now })
          db.sessions;
  },
  ok tt,
)

unfoldable pub get_session :
    Option ProtocolError → Database → List ℕ → Result (Option SessionRecord)
unfolding query find_row
get_session fault db session_id = query fault (find_row session_key session_id db.sessions)

-- `state IN (..)`
unfoldable pub is_active_state : String → Bool
is_active_state s =
    eqb s "opening" || eqb s "negotiating" || eqb s "authenticating" || eqb s "active"

unfoldable pub get_active_sessions : Option ProtocolError → Database → Result (List SessionRecord)
unfolding query select_where is_active_state
get_active_sessions fault db = query fault (select_where (λ r. is_active_state r.state) db.sessions)

unfoldable pub set_config_row : ConfigRecord → ConfigRecord → ConfigRecord
set_config_row excluded r = record r {
  value = excluded.value;
  description = excluded.description;
  read_only = excluded.read_only;
  secret = excluded.secret;
  updated_at = excluded.updated_at;
}

unfoldable pub set_config :
    Option ProtocolError
    → (now : ℕ) → Database
    → (key value : String) (description : Option String) (read_only secret : Bool)
    → Database × Result (Unit {0})
unfolding execute upsert_row set_config_row
set_config fault now db key value description read_only secret =
    let row : ConfigRecord = record {
      key = key;
      value = value;
      description = description;
      read_only = read_only;
      secret = secret;
      updated_at = now;
    } in
    execute fault db
      (record db { config = upsert_row config_key key (set_config_row row) row db.config }, ok tt)

unfoldable pub get_config : Option ProtocolError → Database → String → Result (Option String)
unfolding query find_row
get_config fault db key =
    query fault (option_map (λ r. r.value) (find_row config_key key db.config))

abbrev pub is_deletable : String → ConfigRecord → Bool
is_deletable key r = eqb r.key key && not r.read_only

unfoldable pub delete_config :
    Option ProtocolError → Database → String → Database × Result (Unit {0})
unfolding execute delete_where
delete_config fault db key =
    execute fault db (record db { config = delete_where (is_deletable key) db.config }, ok tt)

unfoldable pub list_config : Option ProtocolError → Database → Result (List ConfigRecord)
unfolding query
list_config fault db = query fault db.config
