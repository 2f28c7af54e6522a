-- ===== src/Auth/Sealing.antt =====
-- Encryption of a frame's payload with the keys of a channel, in desktop/protocol/src/auth.rs.
use bit_drive.Prelude.{
  ℕ, ◌-◌, ◌≡◌, sym, ap, refl, Bool-cases, inl, inr, leb, leb→le, List, ◌++◌, length, take, drop,
  take-append-drop, length-drop, arith,
}
use bit_drive.Errors.{ok, >>=-ok, ok-injective, err≢ok, panic≢ok}
use bit_drive.Auth.Keys.{
  Crypto, Outcome, done, failed, ChannelKeys, sealed, channel_nonce, split_tag,
  encrypt_with_channel_keys, decrypt_with_channel_keys,
}

sealed-ok : (o : Outcome (List ℕ)) (bytes : List ℕ) → sealed o ≡ ok bytes → o ≡ done bytes
sealed-ok (done b) bytes h = ap done (ok-injective h)
sealed-ok (failed text) bytes h = absurd (err≢ok h)

split_tag-ok :
    (bytes ciphertext tag : List ℕ)
    → split_tag bytes ≡ ok (ciphertext, tag)
    → (bytes ≡ ciphertext ++ tag) × (length tag ≡ 16)
split_tag-ok bytes ciphertext tag h = elim (Bool-cases (leb 16 (length bytes))) [
  | inr short ↦ absurd (panic≢ok (rw short at h))
  | inl long ↦
      let n = length bytes - 16 in
      let parts = ok-injective (rw long at h) in
      let first : take n bytes ≡ ciphertext = ap (λ p. p.0) parts in
      let second : drop n bytes ≡ tag = ap (λ p. p.1) parts in
      (
        rw (← first, ← second) (sym (take-append-drop n bytes)),
        rw (← second) (omega (arith, length-drop n bytes, leb→le 16 (length bytes) long)),
      )
]

-- What is encrypted with the keys of a channel under a sequence number has a tag of 16 bytes, the size
-- that the frame codec reads, and decrypts to what it was under the same keys and number. Assumed of
-- AES-GCM: what it encrypts it decrypts under the same key and nonce.
pub decrypt-encrypt_with_channel_keys :
    (crypto : Crypto) (plain : List ℕ) (keys : ChannelKeys) (sequence : ℕ) (ciphertext tag : List ℕ)
    → ((key nonce text bytes : List ℕ)
        → crypto.encrypt key nonce text ≡ done bytes
        → crypto.decrypt key nonce bytes ≡ done text)
    → encrypt_with_channel_keys crypto plain keys sequence ≡ ok (ciphertext, tag)
    → (length tag ≡ 16) × (decrypt_with_channel_keys crypto ciphertext tag keys sequence ≡ ok plain)
unfolding encrypt_with_channel_keys decrypt_with_channel_keys
decrypt-encrypt_with_channel_keys crypto plain keys sequence ciphertext tag undo h =
    let nonce = channel_nonce keys sequence in
    let (bytes, bytes_ok, h1) =
      >>=-ok (sealed (crypto.encrypt keys.encryption_key nonce plain)) _ (ciphertext, tag) h in
    let (joined, tag_length) = split_tag-ok bytes ciphertext tag h1 in
    let encrypted = sealed-ok (crypto.encrypt keys.encryption_key nonce plain) bytes bytes_ok in
    (tag_length, rw (← joined, undo keys.encryption_key nonce plain bytes encrypted) refl)
