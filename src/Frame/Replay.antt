-- ===== src/Frame/Replay.antt =====
-- Old sequence numbers in `decode` of desktop/protocol/src/frame.rs.
use bit_drive.Prelude.{ℕ, ◌≤◌, ◌<◌, ◌≡◌, ◌∙◌, ap, some, List, ◌++◌, arith, lt→ltb}
use bit_drive.Prelude.Words.{IsU32, IsU64}
use bit_drive.Errors.{err, ok, replay_detected}
use bit_drive.Pb.FrameType.{FrameType}
use bit_drive.Pb.Header.{FrameFlags}
use bit_drive.Frame.{Frame, FrameCodec, decode}
use bit_drive.Frame.RoundTrip.{IsSendable, sent, received, decode-sent, decode-sent_fresh}

module _ (crc32 : List ℕ → ℕ) (tx rx : FrameCodec) (f : Frame) (t : FrameType) (flags : FrameFlags)
    (channel : ℕ) (rest : List ℕ) where
  -- A frame that was sent with a sequence number below the receiver's is refused as a replay, whatever
  -- its channel and its flags; its bytes leave the buffer, and the codec stays as it was. A frame that is sent has the magic
  -- number, a version, channel and payload length that fit 32 bits, flags and a tag of 16 bytes;
  -- the results of the CRC fit 32 bits.
  pub decode_old :
      ((bytes : List ℕ) → IsU32 (crc32 bytes))
      → IsSendable f t flags channel
      → IsU64 tx.tx_sequence
      → tx.tx_sequence < rx.rx_sequence
      → decode crc32 rx (sent crc32 tx f t flags channel ++ rest)
        ≡ (rx, rest, err (replay_detected tx.tx_sequence))
  decode_old hc s hs old =
      decode-sent crc32 tx f t flags channel s rx rest hc hs ∙ rw (lt→ltb _ _ old)

  -- The same bytes a second time are delivered a second time: a codec that has just delivered a
  -- frame delivers it again, since the number of the last frame is not below the receiver's. The
  -- first time the receiver's number is not past the frame's, which fits 64 bits. A frame that is
  -- sent has the magic number, a version, channel and payload length that fit 32 bits, flags and a
  -- tag of 16 bytes; the results of the CRC fit 32 bits.
  pub decode_twice :
      ((bytes : List ℕ) → IsU32 (crc32 bytes))
      → IsSendable f t flags channel
      → IsU64 tx.tx_sequence
      → rx.rx_sequence ≤ tx.tx_sequence
      → let bytes = sent crc32 tx f t flags channel ++ rest in
        let rx' = record rx { rx_sequence = tx.tx_sequence } in
        let got = ok (some (received crc32 tx f t flags channel)) in
        (decode crc32 rx bytes ≡ (rx', rest, got)) × (decode crc32 rx' bytes ≡ (rx', rest, got))
  decode_twice hc s hs fresh = (
    decode-sent_fresh crc32 tx f t flags channel s rx rest hc hs fresh,
    decode-sent_fresh crc32 tx f t flags channel s (record rx { rx_sequence = tx.tx_sequence }) rest
        hc hs (omega arith),
  )

-- One number serves all channels: a frame that the receiver has just delivered on one channel makes
-- it refuse every frame with a lower sequence number as a replay, on the same channel or on one on
-- which nothing came yet, whatever its flags, `reset_sequence` included; the bytes of the refused
-- frame leave the buffer, and the codec stays as the delivery left it. The receiver's number is not
-- past that of the first frame, which fits 64 bits. A frame that is sent has the magic number, a
-- version, channel and payload length that fit 32 bits, flags and a tag of 16 bytes; the results of
-- the CRC fit 32 bits.
pub decode_overtaken :
    (crc32 : List ℕ → ℕ) (tx other rx : FrameCodec) (f g : Frame) (t u : FrameType)
    (flags flags' : FrameFlags) (channel channel' : ℕ) (rest : List ℕ)
    → ((bytes : List ℕ) → IsU32 (crc32 bytes))
    → IsSendable f t flags channel
    → IsSendable g u flags' channel'
    → IsU64 tx.tx_sequence
    → rx.rx_sequence ≤ tx.tx_sequence
    → other.tx_sequence < tx.tx_sequence
    → let late = sent crc32 other g u flags' channel' ++ rest in
      let first = decode crc32 rx (sent crc32 tx f t flags channel ++ late) in
      (first.2 ≡ ok (some (received crc32 tx f t flags channel)))
      × (decode crc32 first.0 first.1 ≡ (first.0, rest, err (replay_detected other.tx_sequence)))
decode_overtaken crc32 tx other rx f g t u flags flags' channel channel' rest hc s z hs fresh old =
    let late = sent crc32 other g u flags' channel' ++ rest in
    let first = decode-sent_fresh crc32 tx f t flags channel s rx late hc hs fresh in
    (
      ap (λ d. d.2) first,
      rw first (
          decode_old crc32 other (record rx { rx_sequence = tx.tx_sequence }) g u flags' channel'
            rest hc z (omega (arith, hs, old)) old),
    )
