-- ===== src/Auth/Keys.antt =====
-- Session and channel keys of desktop/protocol/src/auth.rs. The cryptography of the crates hkdf, hmac,
-- aes-gcm and bincode is a parameter.
use bit_drive.Prelude.{
  ℕ, zero, suc, ◌+◌, ◌/◌, ◌%◌, String, Option, none, some, List, [], ◌∷◌, ◌++◌, take, ltb, length,
  leb, ◌-◌, drop, if◌then◌else◌,
}
use bit_drive.Prelude.Eq.{nat_eq}
use bit_drive.Prelude.Words.{u64_le}
use bit_drive.Prelude.Map.{Map, insert}
use bit_drive.Errors.{Result, ok, err, panic, ◌>>=◌, key_derivation, encryption, decryption}

-- The result of a call whose error is turned into a text.
pub data Outcome {ℓ} (A : Type ℓ) : Type ℓ where
  done : A → Outcome A
  failed : String → Outcome A

pub record ChannelKeys : Type 0 where
  pub encryption_key : List ℕ
  pub authentication_key : List ℕ
  pub iv_salt : List ℕ

pub record SessionKeys : Type 0 where
  pub master_key : List ℕ
  pub encryption_key : List ℕ
  pub authentication_key : List ℕ
  pub iv_salt : List ℕ
  pub channel_keys : Map ℕ ChannelKeys

-- `hkdf salt ikm info n` is `Hkdf::<Sha256>::new(salt, ikm).expand(info, ..)` into n bytes, `none` for
-- its error. `hmac key data` is HMAC-SHA256 over all that `update` was given. The calls of AES-GCM
-- take the key, the nonce and the data; a ciphertext ends with its tag.
pub record Crypto : Type 0 where
  pub hkdf : Option (List ℕ) → List ℕ → List ℕ → ℕ → Option (List ℕ)
  pub hmac : List ℕ → List ℕ → Option (List ℕ)
  pub encrypt : List ℕ → List ℕ → List ℕ → Outcome (List ℕ)
  pub decrypt : List ℕ → List ℕ → List ℕ → Outcome (List ℕ)
  pub serialize : SessionKeys → Outcome (List ℕ)
  pub deserialize : List ℕ → Outcome SessionKeys

-- The decimal digits of a number in front of more text, with fuel for the digits.
decimal_from : ℕ → ℕ → List ℕ → List ℕ
decimal_from zero n text = text
decimal_from (suc fuel) n text =
    let more = decimal_from fuel (n / 10) ((48 + n % 10) ∷ text) in
    if ltb n 10 then (48 + n % 10) ∷ text else more

-- `b"bpl-master"` and the other labels.
abbrev pub master_info : List ℕ
master_info = 98 ∷ 112 ∷ 108 ∷ 45 ∷ 109 ∷ 97 ∷ 115 ∷ 116 ∷ 101 ∷ 114 ∷ []

abbrev pub enc_info : List ℕ
enc_info = 98 ∷ 112 ∷ 108 ∷ 45 ∷ 101 ∷ 110 ∷ 99 ∷ []

abbrev pub auth_info : List ℕ
auth_info = 98 ∷ 112 ∷ 108 ∷ 45 ∷ 97 ∷ 117 ∷ 116 ∷ 104 ∷ []

abbrev pub iv_info : List ℕ
iv_info = 98 ∷ 112 ∷ 108 ∷ 45 ∷ 105 ∷ 118 ∷ []

-- `format!("bpl-channel-{}", channel_id)`
unfoldable pub channel_info : ℕ → List ℕ
unfolding decimal_from
channel_info channel_id =
    (98 ∷ 112 ∷ 108 ∷ 45 ∷ 99 ∷ 104 ∷ 97 ∷ 110 ∷ 110 ∷ 101 ∷ 108 ∷ 45 ∷ [])
    ++ decimal_from (suc channel_id) channel_id []

-- `map_err` of a key derivation.
abbrev pub derived : String → Option (List ℕ) → Result (List ℕ)
derived text none = err (key_derivation text)
derived text (some key) = ok key

-- `map_err` of the two calls of AES-GCM.
abbrev pub sealed : Outcome (List ℕ) → Result (List ℕ)
sealed (done bytes) = ok bytes
sealed (failed text) = err (encryption text)

abbrev pub opened : Outcome (List ℕ) → Result (List ℕ)
opened (done bytes) = ok bytes
opened (failed text) = err (decryption text)

-- The sequence number and four bytes of the salt.
abbrev pub channel_nonce : ChannelKeys → ℕ → List ℕ
channel_nonce keys sequence = u64_le sequence ++ take 4 keys.iv_salt

-- `split_at(len - 16)`; without 16 bytes it is a panic.
abbrev pub split_tag : List ℕ → Result (List ℕ × List ℕ)
split_tag bytes =
    if leb 16 (length bytes)
    then ok (take (length bytes - 16) bytes, drop (length bytes - 16) bytes)
    else panic

module _ (crypto : Crypto) where
  unfoldable pub derive_channel_keys : List ℕ → ℕ → Result ChannelKeys
  unfolding channel_info
  derive_channel_keys master_key channel_id = do
    let info = channel_info channel_id
    encryption_key ← derived "Channel encryption key failed" (crypto.hkdf none master_key info 32)
    authentication_key ←
        derived "Channel auth key failed"
          (crypto.hkdf none master_key (info ++ 45 ∷ 97 ∷ 117 ∷ 116 ∷ 104 ∷ []) 32)
    iv_salt ←
        derived "Channel IV salt failed"
          (crypto.hkdf none master_key (info ++ 45 ∷ 105 ∷ 118 ∷ []) 16)
    ok (record {
      encryption_key = encryption_key;
      authentication_key = authentication_key;
      iv_salt = iv_salt;
    })

  -- `for channel_id in 0..16`, with the channels left to do and the next one.
  unfoldable pub derive_channels : ℕ → ℕ → List ℕ → Map ℕ ChannelKeys → Result (Map ℕ ChannelKeys)
  unfolding derive_channel_keys
  derive_channels zero channel_id master_key keys = ok keys
  derive_channels (suc left) channel_id master_key keys =
      derive_channel_keys master_key channel_id >>= λ k.
      derive_channels left (suc channel_id) master_key (insert channel_id k keys)

  -- The keys below a master key, for the salt and the input of the three expansions.
  unfoldable pub derive_from : Option (List ℕ) → List ℕ → List ℕ → Result SessionKeys
  unfolding derive_channels
  derive_from salt input master_key = do
    encryption_key ← derived "Encryption key derivation failed" (crypto.hkdf salt input enc_info 32)
    authentication_key ← derived "Auth key derivation failed" (crypto.hkdf salt input auth_info 32)
    iv_salt ← derived "IV salt derivation failed" (crypto.hkdf salt input iv_info 16)
    channel_keys ← derive_channels 16 0 master_key []
    ok (record {
      master_key = master_key;
      encryption_key = encryption_key;
      authentication_key = authentication_key;
      iv_salt = iv_salt;
      channel_keys = channel_keys;
    })

  -- The salt of the challenge and the key; the nonce of the client is not used.
  unfoldable pub derive_session_keys : List ℕ → List ℕ → List ℕ → Result SessionKeys
  unfolding derive_from
  derive_session_keys psk salt client_nonce = do
    master_key ← derived "Master key derivation failed" (crypto.hkdf (some salt) psk master_info 32)
    derive_from (some master_key) [] master_key

  unfoldable pub encrypt_with_channel_keys : List ℕ → ChannelKeys → ℕ → Result (List ℕ × List ℕ)
  encrypt_with_channel_keys plain keys sequence =
      sealed (crypto.encrypt keys.encryption_key (channel_nonce keys sequence) plain) >>= λ bytes.
      split_tag bytes

  unfoldable pub decrypt_with_channel_keys : List ℕ → List ℕ → ChannelKeys → ℕ → Result (List ℕ)
  decrypt_with_channel_keys ciphertext tag keys sequence =
      opened (crypto.decrypt keys.encryption_key (channel_nonce keys sequence) (ciphertext ++ tag))
