-- ===== src/Codec/Untagged.antt =====
-- The control frames that desktop/protocol/src/codec.rs sends carry no authentication tag, and its
-- receive loop waits for one.
use bit_drive.Prelude.{
  ℕ, ◌+◌, ◌^◌, ◌%◌, ◌≡◌, ap, ◌∙◌, none, some, List, [], length, append-nil, arith,
}
use bit_drive.Prelude.Words.{IsU32, IsU64, u64}
use bit_drive.Errors.{Result, ok}
use bit_drive.Pb.FrameType.{FrameType, as_i32, try_from, try_from-as_i32, as_i32-lt}
use bit_drive.Frame.{FrameCodec, header_prefix, magic_number, next_tx_sequence, encode, decode}
use bit_drive.Frame.Flags.{pack_flags}
use bit_drive.Frame.Layout.{packet, packet-Reads}
use bit_drive.Frame.Decode.{decode_waits}
use bit_drive.Frame.Control.{control_flags, build_control_frame}
use bit_drive.Codec.{
  ProtocolCodec, after_decode, decode_loop, decode_data, finish, encode_control_frame,
}

module _ (crc32 : List ℕ → ℕ) where
  -- The bytes of a control frame with sequence number `sequence`.
  abbrev pub control_bytes : FrameType → List ℕ → (channel sequence : ℕ) → List ℕ
  control_bytes t payload channel sequence =
      packet magic_number 0x00010000 (as_i32 t) (pack_flags control_flags) channel sequence
        (length payload)
        (crc32 (
          header_prefix magic_number 0x00010000 (as_i32 t) (pack_flags control_flags) channel
            sequence (length payload)))
        payload

  -- The sequence number that was taken for the frame is not the one that it goes out with: `encode`
  -- takes the next one.
  encode_control_frame-bytes :
      {Message : Type 0} (encode_message : Message → Result (List ℕ)) (p : ProtocolCodec)
      (t : FrameType) (message : Message) (channel : ℕ) (payload : List ℕ)
      → encode_message message ≡ ok payload
      → IsU32 (length payload)
      → encode_control_frame crc32 encode_message p t message channel ≡ (
        record p {
          frame_codec = record (p.frame_codec) {
            tx_sequence = u64 (u64 (p.frame_codec.tx_sequence + 1) + 1);
          };
        },
        ok (control_bytes t payload channel (u64 (p.frame_codec.tx_sequence + 1))),
      )
  unfolding encode_control_frame build_control_frame next_tx_sequence encode
  encode_control_frame-bytes encode_message p t message channel payload e h =
      let fits : length payload % 2 ^ 32 ≡ length payload = omega arith in rw (e, fits, append-nil)

  control_bytes_wait :
      (c : FrameCodec) (t : FrameType) (payload : List ℕ) (channel sequence : ℕ)
      → ((bytes : List ℕ) → IsU32 (crc32 bytes))
      → IsU32 (length payload)
      → IsU32 channel
      → IsU64 sequence
      → let bytes = control_bytes t payload channel sequence in
        decode crc32 c bytes ≡ (c, bytes, ok none)
  control_bytes_wait c t payload channel sequence hc hp hch hs =
      let r =
        packet-Reads magic_number 0x00010000 (as_i32 t) (pack_flags control_flags) channel sequence
          (length payload)
          (crc32 (
            header_prefix magic_number 0x00010000 (as_i32 t) (pack_flags control_flags) channel
              sequence (length payload)))
          payload (omega arith) (omega arith) (as_i32-lt t) hch hs hp (hc _) in
      decode_waits crc32 c (control_bytes t payload channel sequence) {t = t} r.magic_eq
        (ap try_from r.type_eq ∙ try_from-as_i32 t) (omega (arith, r.size_eq, r.length_eq))

-- A control frame never arrives by itself: the bytes that `encode_control_frame` returns leave the
-- receive loop of a codec with an empty buffer waiting with nothing delivered, since they lack the
-- 16 bytes of the tag. The message is serialised, is shorter than 2 ^ 32 bytes, and the channel
-- and the results of the CRC fit 32 bits.
pub decode_data-encode_control_frame :
    (crc32 : List ℕ → ℕ) {Message : Type 0} (encode_message : Message → Result (List ℕ))
    (p q : ProtocolCodec) (t : FrameType) (message : Message) (channel : ℕ) (payload : List ℕ)
    → ((bytes : List ℕ) → IsU32 (crc32 bytes))
    → encode_message message ≡ ok payload
    → IsU32 (length payload)
    → IsU32 channel
    → q.rx_buffer ≡ []
    → (bytes : List ℕ) × ((encode_control_frame crc32 encode_message p t message channel).1
        ≡ ok bytes)
      × (decode_data crc32 q bytes ≡ some (record q { rx_buffer = bytes }, ok []))
unfolding decode_data decode_loop
decode_data-encode_control_frame crc32 encode_message p q t message channel payload hc e hp hch
      empty =
    let sequence = u64 (p.frame_codec.tx_sequence + 1) in
    (
      control_bytes crc32 t payload channel sequence,
      ap (λ r. r.1)
          (encode_control_frame-bytes crc32 encode_message p t message channel payload e hp),
      rw empty (
          ap
            (λ d. finish (
              after_decode
                (decode_loop crc32 (length (control_bytes crc32 t payload channel sequence))) [] d))
            (control_bytes_wait crc32 q.frame_codec t payload channel sequence hc hp hch
              (omega arith))),
    )
