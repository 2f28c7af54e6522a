-- ===== src/Session.antt =====
-- desktop/protocol/src/session.rs: one session and its keepalive tasks. Times are readings of a clock
-- in milliseconds. Events that go to the broadcast channel are a list beside the session, latest last.
pub mod Keepalive
pub mod Timeout
pub mod Sessions
use bit_drive.Prelude.{
  ℕ, ◌+◌, ◌-◌, String, Bool, true, false, Option, none, some, List, [], ◌∷◌, ◌++◌, length, set,
  get_elem?, ltb, leb, if◌then◌else◌,
}
use bit_drive.Prelude.Words.{u64}
use bit_drive.Prelude.Map.{Map}
use bit_drive.Errors.{Result, ok, err, panic}
use bit_drive.Pb.Service.{ProtocolVersion, NegotiatedCapability}
use bit_drive.Auth.Keys.{SessionKeys}
use bit_drive.Auth.{AuthManager}
use bit_drive.Auth
use bit_drive.Mux.Manager.{ChannelManager}
use bit_drive.Mux.Manager
use bit_drive.Registry.{ServiceRegistry}
use bit_drive.Registry
use bit_drive.Capability.{CapabilityNegotiator}
use bit_drive.Capability

pub record SessionConfig : Type 0 where
  pub protocol_version : ProtocolVersion
  pub local_device_id : List ℕ
  pub remote_device_id : List ℕ
  pub session_id : List ℕ
  pub negotiated_capabilities : List NegotiatedCapability
  pub capability_versions : Map String ℕ
  pub max_channels : ℕ
  pub max_frame_size : ℕ
  pub keepalive_interval : ℕ
  pub session_timeout : ℕ
  pub session_keys : SessionKeys
  pub established_at : ℕ
  pub last_activity : ℕ

pub data SessionState : Type 0 where
  closed opening negotiating_capabilities authenticating active closing reconnecting : SessionState

abbrev pub is_active : SessionState → Bool
is_active active = true
is_active _ = false

pub data SessionEventType : Type 0 where
  session_event_opened session_event_closed session_event_error : SessionEventType
  session_event_keepalive_timeout session_event_capabilities_negotiated : SessionEventType
  session_event_auth_complete session_event_reconnecting session_event_reconnected :
      SessionEventType

pub record SessionEvent : Type 0 where
  pub session_id : List ℕ
  pub event_type : SessionEventType
  pub timestamp : ℕ
  pub message : String
  pub details : List ℕ

-- `tasks` holds the keepalive tasks that were spawned: the local `missed` of a task that runs, `none`
-- for one that has ended. `keepalive_handle` is the place of a task.
pub record Session : Type 0 where
  pub config : SessionConfig
  pub state : SessionState
  pub channel_manager : ChannelManager
  pub service_registry : ServiceRegistry
  pub auth_manager : AuthManager
  pub capability_negotiator : CapabilityNegotiator
  pub keepalive_handle : Option ℕ
  pub tasks : List (Option ℕ)
  pub rx_sequence : ℕ
  pub tx_sequence : ℕ
  pub last_activity : ℕ

unfoldable pub new : SessionConfig → ℕ → Session
unfolding Manager.empty Registry.empty Auth.new Capability.new
new config now = record {
  config = config;
  state = opening;
  channel_manager = Manager.empty;
  service_registry = Registry.empty;
  auth_manager = Auth.new;
  capability_negotiator = Capability.new;
  keepalive_handle = none;
  tasks = [];
  rx_sequence = 0;
  tx_sequence = 0;
  last_activity = now;
}

unfoldable pub set_state : Session → SessionState → Session
set_state s state = record s { state = state }

unfoldable pub next_tx_sequence : Session → Session × ℕ
next_tx_sequence s = (record s { tx_sequence = u64 (s.tx_sequence + 1) }, s.tx_sequence)

unfoldable pub set_rx_sequence : Session → ℕ → Session
set_rx_sequence s seq = record s { rx_sequence = seq }

unfoldable pub touch : Session → ℕ → Session
touch s now = record s { last_activity = now }

-- `elapsed` is 0 where the last activity is the later one.
unfoldable pub is_alive : Session → ℕ → Bool
is_alive s now = ltb (now - s.last_activity) s.config.session_timeout

-- A new task; the one that the handle named before goes on.
unfoldable pub start_keepalive : Session → Session
start_keepalive s = record s {
  tasks = s.tasks ++ some 0 ∷ [];
  keepalive_handle = some (length s.tasks);
}

stop_task : Option ℕ → List (Option ℕ) → List (Option ℕ)
stop_task none tasks = tasks
stop_task (some task) tasks = set tasks task none

unfoldable pub stop_keepalive : Session → Session
unfolding stop_task
stop_keepalive s = record s {
  keepalive_handle = none;
  tasks = stop_task s.keepalive_handle s.tasks;
}

abbrev pub max_missed : ℕ
max_missed = 3

-- The keepalive takes a sequence number; nothing is sent.
unfoldable pub send_keepalive : Session → Session × Result (Unit {0})
unfolding next_tx_sequence
send_keepalive s = ((next_tx_sequence s).0, ok tt)

abbrev pub timeout_event : Session → ℕ → SessionEvent
timeout_event s now = record {
  session_id = s.config.session_id;
  event_type = session_event_keepalive_timeout;
  timestamp = now;
  message = "Keepalive timeout";
  details = [];
}

unfoldable pub handle_timeout : Session → ℕ → Session × List SessionEvent
unfolding set_state
handle_timeout s now = (set_state s closing, timeout_event s now ∷ [])

-- The session, `missed` if the loop goes on, and the events of one turn.
abbrev pub Turn : Type 0
Turn = Session × Option ℕ × List SessionEvent

unfoldable pub time_out : Session → ℕ → Turn
unfolding handle_timeout
time_out s now = let (s', events) = handle_timeout s now in (s', none, events)

unfoldable pub after_send : ℕ → ℕ → Session × Result (Unit {0}) → Turn
unfolding time_out
after_send missed now (s, ok done) = (s, some missed, [])
after_send missed now (s, err e) =
    if leb max_missed (missed + 1) then time_out s now else (s, some (missed + 1), [])
after_send missed now (s, panic) = (s, none, [])

-- One turn of `keepalive_loop`, after its tick.
unfoldable pub turn : Session → ℕ → ℕ → Turn
unfolding is_alive after_send send_keepalive time_out
turn s missed now =
    if is_active s.state
    then (if is_alive s now
        then after_send 0 now (send_keepalive s)
        else if leb max_missed (missed + 1)
        then time_out s now
        else after_send (missed + 1) now (send_keepalive s))
    else (s, none, [])

unfoldable pub handle_keepalive_response : Session → ℕ → Session
unfolding touch
handle_keepalive_response s now = touch s now

unfoldable pub close : Session → String → ℕ → Session × List SessionEvent
unfolding set_state stop_keepalive
close s message now = (
  stop_keepalive (set_state s closing),
  record {
    session_id = s.config.session_id;
    event_type = session_event_closed;
    timestamp = now;
    message = message;
    details = [];
  }
      ∷ [],
)
