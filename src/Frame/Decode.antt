-- ===== src/Frame/Decode.antt =====
-- `decode` of desktop/protocol/src/frame.rs, by the fields of the buffer and on a whole frame.
use bit_drive.Prelude.{
  ℕ, ◌+◌, ◌≤◌, ◌<◌, ◌≡◌, refl, sym, ap, ◌∙◌, Option, some, none, List, ◌++◌, length, take, drop,
  get_or, ltb, if◌then◌else◌, arith, take-append_exact, drop-append_exact, drop-add, length-append,
}
use bit_drive.Prelude.Words.{IsU32, IsU64, u32_at}
use bit_drive.Errors.{Result, ok, err, replay_detected}
use bit_drive.Pb.FrameType.{FrameType, as_i32, try_from, try_from-as_i32, as_i32-lt}
use bit_drive.Frame.Flags.{unpack_flags}
use bit_drive.Frame.{Frame, FrameCodec, header_prefix, magic_number, decode, accept}
use bit_drive.Frame.Layout.{packet, Reads, packet-Reads}

-- What the bytes of a frame are read as.
abbrev pub frame_of :
    (version : ℕ) (t : FrameType) (flags channel sequence crc : ℕ) (payload auth_tag : List ℕ)
    → Frame
frame_of version t flags channel sequence crc payload auth_tag = record {
  header = record {
    magic = magic_number;
    version = version;
    type = as_i32 t;
    flags = some (unpack_flags flags);
    channel_id = some channel;
    sequence = some sequence;
    payload_length = length payload;
    header_crc = crc;
  };
  payload = payload;
  auth_tag = auth_tag;
}

-- A frame that has come in whole, as `decode` finds it in the buffer.
abbrev pub delivered : FrameCodec → ℕ → Frame → List ℕ → FrameCodec × List ℕ × Result (Option Frame)
delivered c sequence frame rest =
    if ltb sequence c.rx_sequence
    then (c, rest, err (replay_detected sequence))
    else (record c { rx_sequence = sequence }, rest, ok (some frame))

module _ (crc32 : List ℕ → ℕ) (c : FrameCodec) (buf : List ℕ) where
  decode-accept :
      {t : FrameType}
      → 46 ≤ length buf
      → u32_at buf 0 ≡ magic_number
      → try_from (get_or buf 8 0) ≡ some t
      → 30 + u32_at buf 22 + 16 ≤ length buf
      → crc32 (take 26 (take 30 buf)) ≡ u32_at buf 26
      → decode crc32 c buf ≡ accept crc32 c buf t
  unfolding decode
  decode-accept h m t s q = ground arith

  -- A frame that has not come in whole is waited for.
  pub decode_waits :
      {t : FrameType}
      → u32_at buf 0 ≡ magic_number
      → try_from (get_or buf 8 0) ≡ some t
      → length buf < 30 + u32_at buf 22 + 16
      → decode crc32 c buf ≡ (c, buf, ok none)
  unfolding decode
  decode_waits m t s = ground arith

  -- A buffer that reads as a frame with the right CRC.
  decode-Reads :
      (version : ℕ) (t : FrameType) (flags channel sequence crc : ℕ)
      (payload auth_tag rest : List ℕ)
      → Reads buf magic_number version
          (as_i32 t)
          flags
          channel
          sequence
          (length payload)
          crc
          (payload ++ (auth_tag ++ rest))
      → crc32 (take 26 (take 30 buf)) ≡ crc
      → length auth_tag ≡ 16
      → decode crc32 c buf
        ≡ delivered c sequence (frame_of version t flags channel sequence crc payload auth_tag) rest
  decode-Reads version t flags channel sequence crc payload auth_tag rest r q ht =
      decode-accept {t = t} (omega (arith, whole)) r.magic_eq
        (ap try_from r.type_eq ∙ try_from-as_i32 t) (omega (arith, whole)) (q ∙ sym r.crc_eq)
      ∙ delivers
    where
      whole : length buf ≡ 30 + (length payload + (16 + length rest))
      whole = omega (arith, length-append payload (auth_tag ++ rest), length-append auth_tag rest)

      at_tag : drop (30 + length payload) buf ≡ auth_tag ++ rest
      at_tag =
          drop-add 30 (length payload) buf
          ∙ (ap (drop (length payload)) r.body_eq
              ∙ drop-append_exact (length payload) payload (auth_tag ++ rest) refl)

      at_rest : drop (30 + length payload + 16) buf ≡ rest
      at_rest =
          drop-add (30 + length payload) 16 buf
          ∙ (ap (drop 16) at_tag ∙ drop-append_exact 16 auth_tag rest ht)

      delivers :
          accept crc32 c buf t
          ≡ delivered c sequence
              (frame_of version t flags channel sequence crc payload auth_tag)
              rest
      delivers =
          unfold accept in
          rw (
            r.magic_eq,
            r.version_eq,
            r.flags_eq,
            r.channel_eq,
            r.sequence_eq,
            r.size_eq,
            r.crc_eq,
            r.body_eq,
            take-append_exact (length payload) payload (auth_tag ++ rest) refl,
            at_tag,
            take-append_exact 16 auth_tag rest ht,
            at_rest,
          )

-- The bytes of a frame with its CRC, followed by `rest`, are read as the frame; `rest` stays.
pub decode-packet :
    (crc32 : List ℕ → ℕ) (c : FrameCodec) (version : ℕ) (t : FrameType) (flags channel sequence : ℕ)
    (payload auth_tag rest : List ℕ)
    → ((bytes : List ℕ) → IsU32 (crc32 bytes))
    → IsU32 version
    → IsU32 channel
    → IsU64 sequence
    → IsU32 (length payload)
    → length auth_tag ≡ 16
    → let crc =
        crc32
          (header_prefix magic_number version (as_i32 t) flags channel sequence (length payload)) in
      decode crc32 c (
        packet magic_number version
          (as_i32 t)
          flags
          channel
          sequence
          (length payload)
          crc
          (payload ++ (auth_tag ++ rest)))
      ≡ delivered c sequence (frame_of version t flags channel sequence crc payload auth_tag) rest
decode-packet crc32 c version t flags channel sequence payload auth_tag rest hc hv hch hs hp ht =
    decode-Reads crc32 c _ version t flags channel sequence _ payload auth_tag rest
      (packet-Reads magic_number version (as_i32 t) flags channel sequence (length payload) _ _
        (omega arith) hv (as_i32-lt t) hch hs hp (hc _))
      refl ht
