-- ===== src/Codec/Delivery.antt =====
-- A run of frames through `FrameCodec::encode` and the receive loop of
-- desktop/protocol/src/codec.rs.
use bit_drive.Prelude.{
  ℕ, zero, suc, ◌+◌, ◌^◌, ◌≤◌, ◌<◌, ◌≡◌, refl, ap, ◌∙◌, false, some, List, [], ◌∷◌, ◌++◌, length,
  length-append, append_assoc, append-nil, arith,
}
use bit_drive.Prelude.Words.{IsU32, u64}
use bit_drive.Errors.{Result, ok, ◌>>=◌}
use bit_drive.Pb.FrameType.{FrameType}
use bit_drive.Pb.Header.{FrameFlags}
use bit_drive.Frame.{Frame, FrameCodec, encode, decode}
use bit_drive.Frame.RoundTrip.{IsSendable, sent, received, encode-sent, decode-sent_fresh}
use bit_drive.Frame.Fragments.{reassemble_fragment}
use bit_drive.Codec.{after_reassembly, after_decode, decode_loop, decode_data, finish}

-- A frame that can be sent and is no fragment.
pub record Parcel : Type 0 where
  pub frame : Frame
  pub type : FrameType
  pub flags : FrameFlags
  pub channel : ℕ
  pub sendable : IsSendable frame type flags channel
  pub unfragmented : flags.is_fragment ≡ false

abbrev pub bump : FrameCodec → FrameCodec
bump tx = record tx { tx_sequence = u64 (tx.tx_sequence + 1) }

module _ (crc32 : List ℕ → ℕ) where
  -- One frame after the other into `encode`, the bytes put together.
  pub encode_all : FrameCodec → List Parcel → Result (List ℕ)
  encode_all tx [] = ok []
  encode_all tx (p ∷ ps) = do
    bytes ← (encode crc32 tx p.frame).1
    rest ← encode_all (encode crc32 tx p.frame).0 ps
    ok (bytes ++ rest)

  abbrev pub stream : FrameCodec → List Parcel → List ℕ
  stream tx [] = []
  stream tx (p ∷ ps) = sent crc32 tx p.frame p.type p.flags p.channel ++ stream (bump tx) ps

  -- The frames that come out, each with the sequence number that it went out with.
  abbrev pub received_all : FrameCodec → List Parcel → List Frame
  received_all tx [] = []
  received_all tx (p ∷ ps) =
      received crc32 tx p.frame p.type p.flags p.channel ∷ received_all (bump tx) ps

  encode_all-stream : (tx : FrameCodec) (ps : List Parcel) → encode_all tx ps ≡ ok (stream tx ps)
  unfolding encode_all
  encode_all-stream tx [] = refl
  encode_all-stream tx (p ∷ ps) =
      rw (encode-sent crc32 tx p.frame p.type p.flags p.channel p.sendable)
        (rw (encode_all-stream (bump tx) ps))

  pass_through :
      (c tx : FrameCodec) (p : Parcel)
      → let f = received crc32 tx p.frame p.type p.flags p.channel in
        reassemble_fragment c f ≡ (c, ok (some f))
  unfolding reassemble_fragment
  pass_through c tx p = rw p.unfragmented

  length-stream : (tx : FrameCodec) (ps : List Parcel) → length ps ≤ length (stream tx ps)
  length-stream tx [] = omega arith
  length-stream tx (p ∷ ps) = omega (
    arith,
    length-stream (bump tx) ps,
    length-append (sent crc32 tx p.frame p.type p.flags p.channel) (stream (bump tx) ps),
  )

  -- The codec that has received everything.
  abbrev pub arrived : FrameCodec → FrameCodec → List Parcel → FrameCodec
  arrived rx tx [] = rx
  arrived rx tx (p ∷ ps) = arrived (record rx { rx_sequence = tx.tx_sequence }) (bump tx) ps

  decode_loop-stream :
      (n : ℕ) (rx tx : FrameCodec) (ps : List Parcel) (frames : List Frame)
      → ((bytes : List ℕ) → IsU32 (crc32 bytes))
      → length ps < n
      → rx.rx_sequence ≤ tx.tx_sequence
      → tx.tx_sequence + length ps < 2 ^ 64
      → decode_loop crc32 n rx (stream tx ps) frames
        ≡ some (arrived rx tx ps, [], ok (frames ++ received_all tx ps))
  unfolding decode_loop
  decode_loop-stream zero rx tx ps frames hc h order room = absurd (omega arith)
  decode_loop-stream (suc n) rx tx [] frames hc h order room = unfold decode in rw append-nil
  decode_loop-stream (suc n) rx tx (p ∷ ps) frames hc h order room =
      let rx' = record rx { rx_sequence = tx.tx_sequence } in
      let f = received crc32 tx p.frame p.type p.flags p.channel in
      ap (after_decode (decode_loop crc32 n) frames) (
        decode-sent_fresh crc32 tx p.frame p.type p.flags p.channel p.sendable rx
          (stream (bump tx) ps) hc (omega arith) order)
      ∙ (ap (after_reassembly (decode_loop crc32 n) (stream (bump tx) ps) frames)
            (pass_through rx' tx p)
          ∙ (decode_loop-stream n rx' (bump tx) ps (frames ++ f ∷ []) hc (omega arith) (omega arith)
                (omega arith)
              ∙ rw append_assoc))

-- A run of frames arrives: encoded one after the other and read in one go by a codec with an empty
-- buffer, the frames come out once each and in order, with the sequence numbers that they went out
-- with, and nothing stays in the buffer. None of them is marked as a fragment; the sender's
-- sequence number does not wrap on the way, and the receiver's is not past it at the start. A
-- frame that is sent has the magic number, a version, channel and payload length that fit 32 bits,
-- flags and a tag of 16 bytes; the results of the CRC fit 32 bits.
pub decode_data-encode_all :
    (crc32 : List ℕ → ℕ) (tx rx : FrameCodec) (ps : List Parcel)
    → ((bytes : List ℕ) → IsU32 (crc32 bytes))
    → rx.rx_sequence ≤ tx.tx_sequence
    → tx.tx_sequence + length ps < 2 ^ 64
    → (bytes : List ℕ) × (encode_all crc32 tx ps ≡ ok bytes)
      × (decode_data crc32 (record { frame_codec = rx; rx_buffer = [] }) bytes
          ≡ some (
            record { frame_codec = arrived crc32 rx tx ps; rx_buffer = [] },
            ok (received_all crc32 tx ps),
          ))
unfolding decode_data
decode_data-encode_all crc32 tx rx ps hc order room = (
  stream crc32 tx ps,
  encode_all-stream crc32 tx ps,
  ap finish (
      decode_loop-stream crc32 (suc (length (stream crc32 tx ps))) rx tx ps [] hc
        (omega (arith, length-stream crc32 tx ps)) order room),
)
