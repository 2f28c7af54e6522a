-- ===== src/Codec.antt =====
-- desktop/protocol/src/codec.rs: the codec of one connection, with its receive buffer.
pub mod Loop
pub mod Stream
pub mod Sticky
pub mod Delivery
pub mod Untagged
use bit_drive.Prelude.{
  ℕ, zero, suc, Bool, true, false, ◌||◌, ◌≡◌, ◌⊎◌, arith, Option, none, some, List, [], ◌∷◌, ◌++◌,
  length,
}
use bit_drive.Errors.{Result, ok, err, panic}
use bit_drive.Pb.FrameType.{FrameType, data_frame, data_fragment, data_end, control_frame}
use bit_drive.Frame.{
  Frame, FrameCodec, default_max_frame_size, next_tx_sequence, reset_sequences, encode, decode,
}
use bit_drive.Frame
use bit_drive.Frame.Fragments.{reassemble_fragment}
use bit_drive.Frame.Control.{
  KeepAlive, build_control_frame, build_session_open_request, build_session_open_response,
  build_keepalive, build_capability_negotiate, build_auth_challenge, build_auth_response,
  build_channel_open_request, build_flow_control_update,
}

pub record ProtocolCodec : Type 0 where
  pub frame_codec : FrameCodec
  pub rx_buffer : List ℕ

unfoldable pub new : ProtocolCodec
unfolding Frame.new
new = record { frame_codec = Frame.new default_max_frame_size; rx_buffer = [] }

-- `reset`, for a new connection.
unfoldable pub reset : ProtocolCodec → ProtocolCodec
unfolding reset_sequences
reset p = record { frame_codec = reset_sequences p.frame_codec; rx_buffer = [] }

unfoldable pub set_rx_sequence : ProtocolCodec → ℕ → ProtocolCodec
set_rx_sequence p seq = record p { frame_codec = record (p.frame_codec) { rx_sequence = seq } }

unfoldable pub rx_sequence : ProtocolCodec → ℕ
rx_sequence p = p.frame_codec.rx_sequence

-- How the receive loop ends: the frame codec, the buffer, and the frames or the error. `none` stands
-- for fuel that ran out.
abbrev pub Outcome : Type 0
Outcome = Option (FrameCodec × List ℕ × Result (List Frame))

-- The codec that the receive loop leaves.
abbrev pub finish : Outcome → Option (ProtocolCodec × Result (List Frame))
finish none = none
finish (some (c, rest, r)) = some (record { frame_codec = c; rx_buffer = rest }, r)

-- The rest of a turn of the receive loop after `reassemble_fragment`; `go` is the next turn.
abbrev pub after_reassembly :
    (FrameCodec → List ℕ → List Frame → Outcome)
    → List ℕ
    → List Frame
    → FrameCodec × Result (Option Frame)
    → Outcome
after_reassembly go buf frames (c, err e) = some (c, buf, err e)
after_reassembly go buf frames (c, panic) = some (c, buf, panic)
after_reassembly go buf frames (c, ok none) = go c buf frames
after_reassembly go buf frames (c, ok (some whole)) = go c buf (frames ++ whole ∷ [])

-- The rest of a turn after `FrameCodec::decode`.
abbrev pub after_decode :
    (FrameCodec → List ℕ → List Frame → Outcome)
    → List Frame
    → FrameCodec × List ℕ × Result (Option Frame)
    → Outcome
after_decode go frames (c, buf, err e) = some (c, buf, err e)
after_decode go frames (c, buf, panic) = some (c, buf, panic)
after_decode go frames (c, buf, ok none) = some (c, buf, ok frames)
after_decode go frames (c, buf, ok (some frame)) =
    after_reassembly go buf frames (reassemble_fragment c frame)

module _ (crc32 : List ℕ → ℕ) where
  -- The frame that was built, encoded.
  encode_frame : ProtocolCodec → Result Frame → ProtocolCodec × Result (List ℕ)
  encode_frame p (ok frame) =
      let (codec, bytes) = encode crc32 p.frame_codec frame in
      (record p { frame_codec = codec }, bytes)
  encode_frame p (err e) = (p, err e)
  encode_frame p panic = (p, panic)

  -- The common body of the `encode_*` methods: take a sequence number, build the frame with it, and
  -- encode it.
  encode_built : ProtocolCodec → (ℕ → Result Frame) → ProtocolCodec × Result (List ℕ)
  unfolding encode_frame
  encode_built p build =
      let (codec, sequence) = next_tx_sequence p.frame_codec in
      encode_frame (record p { frame_codec = codec }) (build sequence)

  module _ {Message : Type 0} (encode_message : Message → Result (List ℕ)) where
    unfoldable pub encode_session_open_request :
        ProtocolCodec → Message → ProtocolCodec × Result (List ℕ)
    unfolding encode_built
    encode_session_open_request p request =
        encode_built p (build_session_open_request encode_message request)

    unfoldable pub encode_session_open_response :
        ProtocolCodec → Message → ProtocolCodec × Result (List ℕ)
    unfolding encode_built
    encode_session_open_response p response =
        encode_built p (build_session_open_response encode_message response)

    unfoldable pub encode_keepalive :
        (KeepAlive → Message) → ProtocolCodec → ℕ → ProtocolCodec × Result (List ℕ)
    unfolding encode_built
    encode_keepalive keepalive_message p timestamp =
        encode_built p
          (λ sequence. build_keepalive encode_message keepalive_message sequence timestamp)

    unfoldable pub encode_capability_negotiate :
        ProtocolCodec → Message → ProtocolCodec × Result (List ℕ)
    unfolding encode_built
    encode_capability_negotiate p request =
        encode_built p (build_capability_negotiate encode_message request)

    unfoldable pub encode_auth_challenge : ProtocolCodec → Message → ProtocolCodec × Result (List ℕ)
    unfolding encode_built
    encode_auth_challenge p challenge =
        encode_built p (build_auth_challenge encode_message challenge)

    unfoldable pub encode_auth_response : ProtocolCodec → Message → ProtocolCodec × Result (List ℕ)
    unfolding encode_built
    encode_auth_response p response = encode_built p (build_auth_response encode_message response)

    unfoldable pub encode_channel_open_request :
        ProtocolCodec → Message → ProtocolCodec × Result (List ℕ)
    unfolding encode_built
    encode_channel_open_request p request =
        encode_built p (build_channel_open_request encode_message request)

    unfoldable pub encode_flow_control_update :
        ProtocolCodec → Message → ProtocolCodec × Result (List ℕ)
    unfolding encode_built
    encode_flow_control_update p update =
        encode_built p (build_flow_control_update encode_message update)

    unfoldable pub encode_control_frame :
        ProtocolCodec → FrameType → Message → ℕ → ProtocolCodec × Result (List ℕ)
    unfolding encode_built
    encode_control_frame p frame_type payload channel_id =
        encode_built p (build_control_frame encode_message frame_type payload channel_id)

  -- The loop of `decode`. One turn goes on by `after_decode`.
  unfoldable pub decode_loop : ℕ → FrameCodec → List ℕ → List Frame → Outcome
  decode_loop zero c buf frames = none
  decode_loop (suc fuel) c buf frames =
      after_decode (λ c' rest fs. decode_loop fuel c' rest fs) frames (decode crc32 c buf)

  -- `decode(data)`; every frame takes a byte of the buffer at least.
  unfoldable pub decode_data : ProtocolCodec → List ℕ → Option (ProtocolCodec × Result (List Frame))
  unfolding decode_loop
  decode_data p received =
      let buf = p.rx_buffer ++ received in
      finish (decode_loop (suc (length buf)) p.frame_codec buf [])

-- `frame_types::is_control_frame`
unfoldable pub is_control_frame : FrameType → Bool
is_control_frame data_frame = false
is_control_frame data_fragment = false
is_control_frame data_end = false
is_control_frame control_frame = false
is_control_frame _ = true

-- `frame_types::is_data_frame`
unfoldable pub is_data_frame : FrameType → Bool
is_data_frame data_frame = true
is_data_frame data_fragment = true
is_data_frame data_end = true
is_data_frame _ = false

-- `frame_type == FrameType::Data`
is_plain_data : FrameType → Bool
is_plain_data data_frame = true
is_plain_data _ = false

unfoldable pub requires_ack : FrameType → Bool
unfolding is_control_frame is_plain_data
requires_ack frame_type = is_control_frame frame_type || is_plain_data frame_type

-- No type is both a control and a data type, and only the generic control type is neither.
pub control_or_data :
    (t : FrameType)
    → ((is_control_frame t ≡ true) × (is_data_frame t ≡ false))
      ⊎ ((is_control_frame t ≡ false) × (is_data_frame t ≡ true))
      ⊎ (t ≡ control_frame)
unfolding is_control_frame is_data_frame
control_or_data t = ground arith
