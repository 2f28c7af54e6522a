-- ===== src/Auth/Transport.antt =====
-- A payload that is encrypted with the keys of a channel (desktop/protocol/src/auth.rs), sent as a frame
-- and read back (desktop/protocol/src/frame.rs).
use bit_drive.Prelude.{ℕ, ◌≤◌, ◌≡◌, ap, refl, some, List, ◌++◌}
use bit_drive.Prelude.Words.{IsU32, IsU64}
use bit_drive.Errors.{ok}
use bit_drive.Pb.FrameType.{FrameType}
use bit_drive.Pb.Header.{FrameFlags}
use bit_drive.Frame.{Frame, FrameCodec, encode, decode}
use bit_drive.Frame.RoundTrip.{IsSendable, sent, received, decode-encode}
use bit_drive.Auth.Keys.{
  Crypto, done, ChannelKeys, encrypt_with_channel_keys, decrypt_with_channel_keys,
}
use bit_drive.Auth.Sealing.{decrypt-encrypt_with_channel_keys}

-- From one side's plain text to the other's: a frame that can be sent, whose payload and tag are what
-- encrypting a text under the sender's sequence number gave, is encoded, and the bytes, whatever
-- follows them, are decoded to a frame with that sequence number, whose payload and tag decrypt to
-- the text under the number that the frame carries; what follows the bytes stays in the buffer.
-- Assumed of AES-GCM: what it encrypts it decrypts under the same key and nonce. The checksum fits 32
-- bits, the sender's number 64, and the receiver's number is not past it.
pub decrypt-decode-encode :
    (crypto : Crypto) (crc32 : List ℕ → ℕ) (tx rx : FrameCodec) (keys : ChannelKeys)
    (plain : List ℕ) (f : Frame) (t : FrameType) (flags : FrameFlags) (channel : ℕ) (rest : List ℕ)
    → ((key nonce text bytes : List ℕ)
        → crypto.encrypt key nonce text ≡ done bytes
        → crypto.decrypt key nonce bytes ≡ done text)
    → ((bytes : List ℕ) → IsU32 (crc32 bytes))
    → IsSendable f t flags channel
    → IsU64 tx.tx_sequence
    → rx.rx_sequence ≤ tx.tx_sequence
    → encrypt_with_channel_keys crypto plain keys tx.tx_sequence ≡ ok (f.payload, f.auth_tag)
    → (bytes : List ℕ) × (g : Frame) × ((encode crc32 tx f).1 ≡ ok bytes)
      × ((decode crc32 rx (bytes ++ rest)).1 ≡ rest)
      × ((decode crc32 rx (bytes ++ rest)).2 ≡ ok (some g))
      × (g.header.sequence ≡ some tx.tx_sequence)
      × (decrypt_with_channel_keys crypto g.payload g.auth_tag keys tx.tx_sequence ≡ ok plain)
decrypt-decode-encode crypto crc32 tx rx keys plain f t flags channel rest undo hc s hs order h =
    let wire = decode-encode crc32 tx rx f t flags channel rest hc s hs order in
    let opened =
      decrypt-encrypt_with_channel_keys crypto plain keys tx.tx_sequence f.payload f.auth_tag undo
        h in
    (
      sent crc32 tx f t flags channel,
      received crc32 tx f t flags channel,
      ap (λ r. r.1) wire.0,
      ap (λ r. r.1) wire.1,
      ap (λ r. r.2) wire.1,
      refl,
      opened.1,
    )
