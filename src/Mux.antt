-- ===== src/Mux.antt =====
-- desktop/protocol/src/mux.rs: logical channels and their send windows. Counters and windows are
-- machine words; additions wrap as in the release profile.
pub mod Window
pub mod Manager
use bit_drive.Prelude.{
  ℕ, ◌+◌, ◌-◌, ◌^◌, ◌%◌, min, String, Bool, true, false, ◌&&◌, Option, none, some, ltb, leb,
  if◌then◌else◌, List, [],
}
use bit_drive.Prelude.Words.{u32, u64, saturating_add}
use bit_drive.Errors.{Result, ok, err, channel_window_exhausted}
use bit_drive.Pb.Channel.{
  ChannelConfig, ChannelType, ChannelPriority, channel_type_as_i32, priority_as_i32,
}
use bit_drive.Frame.{value_or_zero}

pub data ChannelState : Type 0 where
  closed opening open_state closing error_state : ChannelState

-- `state == ChannelState::Open`
abbrev pub is_open : ChannelState → Bool
is_open open_state = true
is_open _ = false

-- The field `tx_sender` is set to `None` and never read.
pub record Channel : Type 0 where
  pub config : ChannelConfig
  pub state : ChannelState
  pub send_window : ℕ
  pub recv_window : ℕ
  pub send_window_used : ℕ
  pub recv_window_used : ℕ
  pub frames_sent : ℕ
  pub frames_received : ℕ
  pub bytes_sent : ℕ
  pub bytes_received : ℕ
  pub retransmissions : ℕ
  pub errors : ℕ

unfoldable pub new : ChannelConfig → Channel
new config = record {
  config = config;
  state = closed;
  send_window = config.send_window;
  recv_window = config.receive_window;
  send_window_used = 0;
  recv_window_used = 0;
  frames_sent = 0;
  frames_received = 0;
  bytes_sent = 0;
  bytes_received = 0;
  retransmissions = 0;
  errors = 0;
}

unfoldable pub can_send : Channel → ℕ → Bool
can_send ch frame_size =
    is_open ch.state && leb (u32 (ch.send_window_used + frame_size)) ch.send_window

unfoldable pub reserve_window : Channel → ℕ → Channel × Result (Unit {0})
reserve_window ch size =
    if ltb ch.send_window (u32 (ch.send_window_used + size))
    then (ch, err (channel_window_exhausted (value_or_zero ch.config.channel_id)))
    else (record ch { send_window_used = u32 (ch.send_window_used + size) }, ok tt)

-- `saturating_sub`
unfoldable pub release_window : Channel → ℕ → Channel
release_window ch size = record ch { send_window_used = ch.send_window_used - size }

unfoldable pub update_send_window : Channel → ℕ → Channel
update_send_window ch increment = record ch {
  send_window = saturating_add ch.send_window increment;
}

unfoldable pub update_recv_window : Channel → ℕ → Channel
update_recv_window ch increment = record ch {
  recv_window = saturating_add ch.recv_window increment;
}

unfoldable pub record_sent : Channel → ℕ → Channel
record_sent ch size = record ch {
  frames_sent = u64 (ch.frames_sent + 1);
  bytes_sent = u64 (ch.bytes_sent + size);
}

unfoldable pub record_received : Channel → ℕ → Channel
record_received ch size = record ch {
  frames_received = u64 (ch.frames_received + 1);
  bytes_received = u64 (ch.bytes_received + size);
}

unfoldable pub record_retransmission : Channel → Channel
record_retransmission ch = record ch { retransmissions = u64 (ch.retransmissions + 1) }

unfoldable pub record_error : Channel → Channel
record_error ch = record ch { errors = u64 (ch.errors + 1) }

abbrev pub default_window_size : ℕ
default_window_size = 65536

unfoldable pub default_channel_config : String → ChannelType → ChannelPriority → ChannelConfig
default_channel_config service_id channel_type priority = record {
  channel_id = some 0;
  type = channel_type_as_i32 channel_type;
  priority = priority_as_i32 priority;
  send_window = default_window_size;
  receive_window = default_window_size;
  max_frame_size = 16384;
  service_id = service_id;
  metadata = [];
}
