-- ===== src/Frame/RoundTrip.antt =====
-- A frame that `encode` of desktop/protocol/src/frame.rs writes is the frame that `decode` reads.
use bit_drive.Prelude.{
  ℕ, ◌+◌, ◌%◌, ◌^◌, ◌≤◌, ◌≡◌, ap, ◌∙◌, some, List, ◌++◌, length, append_assoc, le→not_ltb, arith,
}
use bit_drive.Prelude.Words.{IsU32, IsU64, u64}
use bit_drive.Errors.{ok}
use bit_drive.Pb.FrameType.{FrameType, as_i32}
use bit_drive.Pb.Header.{FrameFlags}
use bit_drive.Frame.Flags.{pack_flags, on_wire, unpack_flags-pack_flags}
use bit_drive.Frame.{Frame, FrameCodec, header_prefix, magic_number, encode, decode}
use bit_drive.Frame.Layout.{packet, packet-append}
use bit_drive.Frame.Decode.{delivered, decode-packet}

-- A frame with the fields that `encode` reads, and a tag of the size of AES-GCM's.
pub record IsSendable (f : Frame) (t : FrameType) (flags : FrameFlags) (channel : ℕ) : Type 0 where
  pub magic_eq : f.header.magic ≡ magic_number
  pub version_u32 : IsU32 f.header.version
  pub type_eq : f.header.type ≡ as_i32 t
  pub flags_eq : f.header.flags ≡ some flags
  pub channel_eq : f.header.channel_id ≡ some channel
  pub channel_u32 : IsU32 channel
  pub payload_u32 : IsU32 (length f.payload)
  pub tag_length : length f.auth_tag ≡ 16

-- The CRC that goes out with a frame.
abbrev pub crc_of : (List ℕ → ℕ) → FrameCodec → Frame → FrameType → FrameFlags → ℕ → ℕ
crc_of crc32 tx f t flags channel = crc32 (
    header_prefix magic_number f.header.version (as_i32 t) (pack_flags flags) channel tx.tx_sequence
      (length f.payload))

-- The bytes that go out.
abbrev pub sent : (List ℕ → ℕ) → FrameCodec → Frame → FrameType → FrameFlags → ℕ → List ℕ
sent crc32 tx f t flags channel =
    packet magic_number f.header.version (as_i32 t) (pack_flags flags) channel tx.tx_sequence
      (length f.payload) (crc_of crc32 tx f t flags channel) (f.payload ++ f.auth_tag)

-- The frame that comes out at the other end.
abbrev pub received : (List ℕ → ℕ) → FrameCodec → Frame → FrameType → FrameFlags → ℕ → Frame
received crc32 tx f t flags channel = record {
  header = record {
    magic = magic_number;
    version = f.header.version;
    type = as_i32 t;
    flags = some (on_wire flags);
    channel_id = some channel;
    sequence = some tx.tx_sequence;
    payload_length = length f.payload;
    header_crc = crc_of crc32 tx f t flags channel;
  };
  payload = f.payload;
  auth_tag = f.auth_tag;
}

module _ (crc32 : List ℕ → ℕ) (tx : FrameCodec) (f : Frame) (t : FrameType) (flags : FrameFlags)
    (channel : ℕ) (s : IsSendable f t flags channel) where
  pub encode-sent :
      encode crc32 tx f
      ≡ (record tx { tx_sequence = u64 (tx.tx_sequence + 1) }, ok (sent crc32 tx f t flags channel))
  unfolding encode
  encode-sent =
      let fits : length f.payload % 2 ^ 32 ≡ length f.payload = omega (arith, s.payload_u32) in
      rw (s.flags_eq, s.channel_eq, s.type_eq, s.magic_eq, fits)

  -- The bytes of a frame are delivered, unless the sequence number is too low.
  pub decode-sent :
      (rx : FrameCodec) (rest : List ℕ)
      → ((bytes : List ℕ) → IsU32 (crc32 bytes))
      → IsU64 tx.tx_sequence
      → decode crc32 rx (sent crc32 tx f t flags channel ++ rest)
        ≡ delivered rx tx.tx_sequence (received crc32 tx f t flags channel) rest
  decode-sent rx rest hc hs =
      ap (decode crc32 rx) (
        packet-append magic_number f.header.version (as_i32 t) (pack_flags flags) channel
          tx.tx_sequence (length f.payload) (crc_of crc32 tx f t flags channel)
          (f.payload ++ f.auth_tag) rest
        ∙ ap
            (packet magic_number f.header.version (as_i32 t) (pack_flags flags) channel
              tx.tx_sequence (length f.payload) (crc_of crc32 tx f t flags channel))
            (append_assoc f.payload f.auth_tag rest))
      ∙ (decode-packet crc32 rx f.header.version t (pack_flags flags) channel tx.tx_sequence
            f.payload f.auth_tag rest hc s.version_u32 s.channel_u32 hs s.payload_u32 s.tag_length
          ∙ rw (unpack_flags-pack_flags flags))

  pub decode-sent_fresh :
      (rx : FrameCodec) (rest : List ℕ)
      → ((bytes : List ℕ) → IsU32 (crc32 bytes))
      → IsU64 tx.tx_sequence
      → rx.rx_sequence ≤ tx.tx_sequence
      → decode crc32 rx (sent crc32 tx f t flags channel ++ rest) ≡ (
        record rx { rx_sequence = tx.tx_sequence },
        rest,
        ok (some (received crc32 tx f t flags channel)),
      )
  decode-sent_fresh rx rest hc hs order = decode-sent rx rest hc hs ∙ rw (le→not_ltb _ _ order)

-- Sent and received: the bytes that `encode` gives for a frame are read as that frame, with the
-- sequence number of the sender, whatever follows them; what follows stays in the buffer. The
-- receiver's sequence number is not past the sender's, which fits 64 bits. A frame that is sent
-- has the magic number, a version, channel and payload length that fit 32 bits, flags and a tag of
-- 16 bytes; the results of the CRC fit 32 bits.
pub decode-encode :
    (crc32 : List ℕ → ℕ) (tx rx : FrameCodec) (f : Frame) (t : FrameType) (flags : FrameFlags)
    (channel : ℕ) (rest : List ℕ)
    → ((bytes : List ℕ) → IsU32 (crc32 bytes))
    → IsSendable f t flags channel
    → IsU64 tx.tx_sequence
    → rx.rx_sequence ≤ tx.tx_sequence
    → (encode crc32 tx f ≡ (
      record tx { tx_sequence = u64 (tx.tx_sequence + 1) },
      ok (sent crc32 tx f t flags channel),
    ))
      × (decode crc32 rx (sent crc32 tx f t flags channel ++ rest) ≡ (
        record rx { rx_sequence = tx.tx_sequence },
        rest,
        ok (some (received crc32 tx f t flags channel)),
      ))
decode-encode crc32 tx rx f t flags channel rest hc s hs order = (
  encode-sent crc32 tx f t flags channel s,
  decode-sent_fresh crc32 tx f t flags channel s rx rest hc hs order,
)
