-- ===== src/Frame.antt =====
-- desktop/protocol/src/frame.rs: frames, the wire format, fragments and control frames.
-- `crc32 bytes` stands for `Hasher::new()`, `update(bytes)`, `finalize()` of the crate crc32fast.
-- A method that mutates the codec returns the new codec first.
pub mod Flags
pub mod Layout
pub mod Decode
pub mod RoundTrip
pub mod Fragments
pub mod Stable
pub mod Safety
pub mod Replay
pub mod Control
use bit_drive.Prelude.{
  ℕ, zero, suc, ◌+◌, ◌-◌, ◌*◌, ◌/◌, ◌%◌, ◌^◌, min, Bool, true, false, Option, none, some, List, [],
  ◌∷◌, ◌++◌, length, take, drop, get_or, ltb, leb, ◌==◌, if◌then◌else◌,
}
use bit_drive.Prelude.Words.{u8, u32, u64, u32_le, u64_le, u32_at, u64_at}
use bit_drive.Errors.{
  Result, ok, err, panic, ◌>>=◌, unwrap, invalid_magic, unknown_frame_type, checksum_mismatch,
  replay_detected,
}
use bit_drive.Pb.FrameType.{
  FrameType, as_i32, try_from, session_open, session_open_ack, keepalive, capability_negotiate,
  auth_challenge, auth_response, channel_open, flow_control,
}
use bit_drive.Pb.Header.{FrameFlags, FrameHeader, default_flags}
use Flags.{pack_flags, unpack_flags}

abbrev pub magic_number : ℕ
magic_number = 0x42504C01

abbrev pub default_max_frame_size : ℕ
default_max_frame_size = 16384

abbrev pub max_frame_payload_size : ℕ
max_frame_payload_size = 16384

abbrev pub control_channel_id : ℕ
control_channel_id = 0

pub record Frame : Type 0 where
  pub header : FrameHeader
  pub payload : List ℕ
  pub auth_tag : List ℕ

pub record FrameFragment : Type 0 where
  pub header : FrameHeader
  pub payload : List ℕ
  pub fragment_index : ℕ
  pub total_fragments : ℕ

pub record FrameCodec : Type 0 where
  pub max_payload_size : ℕ
  pub rx_sequence : ℕ
  pub tx_sequence : ℕ
  pub rx_fragments : List FrameFragment
  pub tx_fragments : List FrameFragment

unfoldable pub new : ℕ → FrameCodec
new max_payload_size = record {
  max_payload_size = min max_payload_size max_frame_payload_size;
  rx_sequence = 0;
  tx_sequence = 0;
  rx_fragments = [];
  tx_fragments = [];
}

unfoldable pub default : FrameCodec
unfolding new
default = new default_max_frame_size

unfoldable pub next_tx_sequence : FrameCodec → FrameCodec × ℕ
next_tx_sequence c = (record c { tx_sequence = u64 (c.tx_sequence + 1) }, c.tx_sequence)

unfoldable pub reset_sequences : FrameCodec → FrameCodec
reset_sequences c = record c { rx_sequence = 0; tx_sequence = 0 }

-- The 26 bytes in front of the CRC, in the order in which `encode` and `calculate_header_crc`
-- put them.
abbrev pub header_prefix : (magic version type flags channel sequence length : ℕ) → List ℕ
header_prefix magic version type flags channel sequence length =
    u32_le magic
    ++ (u32_le version
        ++ (u8 type ∷ flags ∷ (u32_le channel ++ (u64_le sequence ++ u32_le length))))

-- `o.map_or(0, |x| x.value)`
abbrev pub value_or_zero : Option ℕ → ℕ
value_or_zero none = 0
value_or_zero (some v) = v

module _ (crc32 : List ℕ → ℕ) where
  unfoldable pub calculate_header_crc : FrameHeader → Result ℕ
  calculate_header_crc h = do
    flags ← unwrap h.flags
    channel ← unwrap h.channel_id
    sequence ← unwrap h.sequence
    ok (
        crc32 (
          header_prefix h.magic h.version h.type (pack_flags flags) channel sequence
            h.payload_length))

  -- Bytes 0 to 25 of the raw header.
  unfoldable pub calculate_header_crc_raw : List ℕ → ℕ
  calculate_header_crc_raw header_bytes = crc32 (take 26 header_bytes)

  -- The bytes that `encode` puts out for a header with its CRC.
  frame_bytes : FrameHeader → Frame → Result (List ℕ)
  frame_bytes h frame = do
    flags ← unwrap h.flags
    ok (
        header_prefix magic_number h.version h.type (pack_flags flags) (value_or_zero h.channel_id)
          (value_or_zero h.sequence) h.payload_length
        ++ (u32_le h.header_crc ++ (frame.payload ++ frame.auth_tag)))

  unfoldable pub encode : FrameCodec → Frame → FrameCodec × Result (List ℕ)
  unfolding calculate_header_crc frame_bytes
  encode c frame =
      let h = record (frame.header) {
        sequence = some c.tx_sequence;
        payload_length = u32 (length frame.payload);
      } in
      (
        record c { tx_sequence = u64 (c.tx_sequence + 1) },
        do crc ← calculate_header_crc h; frame_bytes (record h { header_crc = crc }) frame,
      )

  -- `decode` from the extraction of the payload on: the bytes of the frame leave the buffer
  -- before the sequence number is tested.
  unfoldable pub accept :
      FrameCodec → List ℕ → FrameType → FrameCodec × List ℕ × Result (Option Frame)
  accept c buf frame_type =
      let payload_length = u32_at buf 22 in
      let total_size = 30 + payload_length + 16 in
      let payload = take payload_length (drop 30 buf) in
      let auth_tag = take 16 (drop (30 + payload_length) buf) in
      let rest = drop total_size buf in
      let sequence = u64_at buf 14 in
      if ltb sequence c.rx_sequence then (c, rest, err (replay_detected sequence)) else (
        record c { rx_sequence = sequence },
        rest,
        ok (
            some (record {
              header = record {
                magic = u32_at buf 0;
                version = u32_at buf 4;
                type = as_i32 frame_type;
                flags = some (unpack_flags (get_or buf 9 0));
                channel_id = some (u32_at buf 10);
                sequence = some sequence;
                payload_length = payload_length;
                header_crc = u32_at buf 26;
              };
              payload = payload;
              auth_tag = auth_tag;
            })),
      )

  -- `decode` from the size test on.
  decode_sized : FrameCodec → List ℕ → FrameType → FrameCodec × List ℕ × Result (Option Frame)
  decode_sized c buf frame_type =
      let header_crc = u32_at buf 26 in
      let calc_crc = calculate_header_crc_raw (take 30 buf) in
      if ltb (length buf) (30 + u32_at buf 22 + 16)
      then (c, buf, ok none)
      else if calc_crc == header_crc
      then accept c buf frame_type
      else (c, buf, err (checksum_mismatch header_crc calc_crc))

  -- The codec and the buffer afterwards, and the result: `ok none` asks for more bytes.
  unfoldable pub decode : FrameCodec → List ℕ → FrameCodec × List ℕ × Result (Option Frame)
  unfolding decode_sized calculate_header_crc_raw
  decode c buf =
      if ltb (length buf) 46
      then (c, buf, ok none)
      else if u32_at buf 0 == magic_number
      then (elim (try_from (get_or buf 8 0)) [
        | none ↦ (c, buf, err (unknown_frame_type (get_or buf 8 0)))
        | some frame_type ↦ decode_sized c buf frame_type
      ])
      else (c, buf, err (invalid_magic magic_number (u32_at buf 0)))
