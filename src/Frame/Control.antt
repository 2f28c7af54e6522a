-- ===== src/Frame/Control.antt =====
-- The control frames of desktop/protocol/src/frame.rs. `encode_message` stands for
-- `prost::Message::encode` into a growing buffer, over all message types.
use bit_drive.Prelude.{ℕ, true, some, List, [], length}
use bit_drive.Prelude.Words.{u32, u64}
use bit_drive.Errors.{Result, ok, ◌>>=◌}
use bit_drive.Pb.FrameType.{
  FrameType, as_i32, session_open, session_open_ack, keepalive, capability_negotiate,
  auth_challenge, auth_response, channel_open, flow_control,
}
use bit_drive.Pb.Header.{FrameFlags, default_flags}
use bit_drive.Frame.{Frame, magic_number, control_channel_id}

-- `KeepAlive`; the timestamp is an `i64`, kept as its 64 bits.
pub record KeepAlive : Type 0 where
  pub timestamp : ℕ
  pub sequence : ℕ

-- The flags of every control frame.
abbrev pub control_flags : FrameFlags
control_flags = record default_flags { authenticated = true; ack_required = true }

abbrev pub control_frame : FrameType → List ℕ → ℕ → ℕ → Frame
control_frame frame_type buf channel_id sequence = record {
  header = record {
    magic = magic_number;
    version = 0x00010000;
    type = as_i32 frame_type;
    flags = some control_flags;
    channel_id = some channel_id;
    sequence = some sequence;
    payload_length = u32 (length buf);
    header_crc = 0;
  };
  payload = buf;
  auth_tag = [];
}

module _ {Message : Type 0} (encode_message : Message → Result (List ℕ)) where
  unfoldable pub build_control_frame : FrameType → Message → ℕ → ℕ → Result Frame
  build_control_frame frame_type payload channel_id sequence = do
    buf ← encode_message payload
    ok (control_frame frame_type buf channel_id sequence)

  unfoldable pub build_session_open_request : Message → ℕ → Result Frame
  unfolding build_control_frame
  build_session_open_request request sequence =
      build_control_frame session_open request control_channel_id sequence

  unfoldable pub build_session_open_response : Message → ℕ → Result Frame
  unfolding build_control_frame
  build_session_open_response response sequence =
      build_control_frame session_open_ack response control_channel_id sequence

  -- `keepalive_message` is the conversion of a `KeepAlive` to a message.
  unfoldable pub build_keepalive : (KeepAlive → Message) → ℕ → ℕ → Result Frame
  unfolding build_control_frame
  build_keepalive keepalive_message sequence timestamp =
      build_control_frame keepalive
        (keepalive_message (record { timestamp = u64 timestamp; sequence = u32 sequence }))
        control_channel_id sequence

  unfoldable pub build_capability_negotiate : Message → ℕ → Result Frame
  unfolding build_control_frame
  build_capability_negotiate request sequence =
      build_control_frame capability_negotiate request control_channel_id sequence

  unfoldable pub build_auth_challenge : Message → ℕ → Result Frame
  unfolding build_control_frame
  build_auth_challenge challenge sequence =
      build_control_frame auth_challenge challenge control_channel_id sequence

  unfoldable pub build_auth_response : Message → ℕ → Result Frame
  unfolding build_control_frame
  build_auth_response response sequence =
      build_control_frame auth_response response control_channel_id sequence

  unfoldable pub build_channel_open_request : Message → ℕ → Result Frame
  unfolding build_control_frame
  build_channel_open_request request sequence =
      build_control_frame channel_open request control_channel_id sequence

  unfoldable pub build_flow_control_update : Message → ℕ → Result Frame
  unfolding build_control_frame
  build_flow_control_update update sequence =
      build_control_frame flow_control update control_channel_id sequence
