-- ===== src/Session/Sessions.antt =====
-- `SessionManager` of desktop/protocol/src/session.rs. The shared sessions (`Arc<Session>`) stand in a
-- heap, and a handle is a place in it. The random identifier and the clock are arguments; the clock is
-- read once where the source reads it in a row. The codec of the manager is never used.
use bit_drive.Prelude.{
  ℕ, ◌≡◌, ◌≢◌, ◌∙◌, refl, Bool, true, Option, none, some, List, [], ◌∷◌, ◌++◌, length, get_elem?,
  map, get_elem?-append_new,
}
use bit_drive.Prelude.Eq.{bytes_eq}
use bit_drive.Prelude.Map.{
  Map, lookup, insert, remove, lookup-insert_self, lookup-insert_ne, lookup-remove, eqb_refl,
}
use bit_drive.Errors.{Result, ok}
use bit_drive.Auth.Keys.{SessionKeys}
use bit_drive.Mux.Manager.{max_channels}
use bit_drive.Session.{Session, SessionConfig, SessionEvent, new, opening, session_event_opened}

pub record SessionManagerConfig : Type 0 where
  pub max_sessions : ℕ
  pub session_timeout : ℕ
  pub keepalive_interval : ℕ
  pub enable_reconnection : Bool

-- `SessionManagerConfig::default()`
abbrev pub default_config : SessionManagerConfig
default_config = record {
  max_sessions = 1;
  session_timeout = 90000;
  keepalive_interval = 30000;
  enable_reconnection = true;
}

-- `SessionKeys::default()`
abbrev zeros : List ℕ
zeros = 0 ∷ 0 ∷ 0 ∷ 0 ∷ 0 ∷ 0 ∷ 0 ∷ 0 ∷ 0 ∷ 0 ∷ 0 ∷ 0 ∷ 0 ∷ 0 ∷ 0 ∷ 0 ∷ []

abbrev pub default_keys : SessionKeys
default_keys = record {
  master_key = zeros ++ zeros;
  encryption_key = zeros ++ zeros;
  authentication_key = zeros ++ zeros;
  iv_salt = zeros;
  channel_keys = [];
}

pub record SessionManager : Type 0 where
  pub sessions : Map (List ℕ) ℕ
  pub config : SessionManagerConfig
  pub heap : List Session
  pub events : List SessionEvent

unfoldable pub new_manager : SessionManagerConfig → SessionManager
new_manager config = record { sessions = []; config = config; heap = []; events = [] }

abbrev pub session_config : SessionManagerConfig → List ℕ → List ℕ → List ℕ → ℕ → SessionConfig
session_config config session_id local_device_id remote_device_id now = record {
  protocol_version = record { major = 1; minor = 0; patch = 0 };
  local_device_id = local_device_id;
  remote_device_id = remote_device_id;
  session_id = session_id;
  negotiated_capabilities = [];
  capability_versions = [];
  max_channels = max_channels;
  max_frame_size = 16384;
  keepalive_interval = config.keepalive_interval;
  session_timeout = config.session_timeout;
  session_keys = default_keys;
  established_at = now;
  last_activity = now;
}

-- The capabilities that are handed in are not used.
unfoldable pub create_session :
    SessionManager
    → (session_id local_device_id remote_device_id : List ℕ) → ℕ
    → SessionManager × Result ℕ
unfolding new
create_session m session_id local_device_id remote_device_id now =
    let handle = length m.heap in
    let session =
      new (session_config m.config session_id local_device_id remote_device_id now) now in
    (
      record m {
        sessions = insert session_id handle m.sessions;
        heap = m.heap ++ session ∷ [];
        events =
            m.events
            ++ record {
              session_id = session_id;
              event_type = session_event_opened;
              timestamp = now;
              message = "Session opened";
              details = [];
            }
              ∷ [];
      },
      ok handle,
    )

unfoldable pub get_session : SessionManager → List ℕ → Option ℕ
get_session m session_id = lookup session_id m.sessions

unfoldable pub remove_session : SessionManager → List ℕ → SessionManager × Option ℕ
remove_session m session_id =
    (record m { sessions = remove session_id m.sessions }, lookup session_id m.sessions)

unfoldable pub list_sessions : SessionManager → List ℕ
list_sessions m = map (λ e. e.1) m.sessions

-- A session that is created is found under its identifier, stands there in the state `Opening` with
-- the timeout of the manager, and hides no session with another identifier; once it is removed it is
-- not found any more.
pub get_session-create_session :
    (m : SessionManager) (id local_device_id remote_device_id : List ℕ) (now : ℕ)
    → let after = (create_session m id local_device_id remote_device_id now).0 in
      (s : Session) × (get_session after id ≡ some (length m.heap))
      × (get_elem? after.heap (length m.heap) ≡ some s)
      × (s.state ≡ opening)
      × (s.config.session_timeout ≡ m.config.session_timeout)
      × ((other : List ℕ) → other ≢ id → get_session after other ≡ get_session m other)
      × (get_session (remove_session after id).0 id ≡ none)
unfolding create_session get_session remove_session new
get_session-create_session m id local_device_id remote_device_id now = (
  new (session_config m.config id local_device_id remote_device_id now) now,
  lookup-insert_self id (length m.heap) m.sessions,
  get_elem?-append_new m.heap _,
  refl,
  refl,
  λ other ne. lookup-insert_ne id other (length m.heap) m.sessions ne,
  lookup-remove id id (insert id (length m.heap) m.sessions) ∙ rw (eqb_refl id) refl,
)
