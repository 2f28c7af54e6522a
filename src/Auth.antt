-- ===== src/Auth.antt =====
-- desktop/protocol/src/auth.rs: mutual authentication with a pre-shared key. A lock is held for the
-- length of one call, so each call is one step. `generate_challenge` takes its random bytes as
-- arguments.
pub mod Keys
pub mod Channels
pub mod Agreement
pub mod Sealing
pub mod Transport
use bit_drive.Prelude.{
  ℕ, String, Bool, true, false, Option, none, some, List, [], ◌∷◌, ◌++◌, if◌then◌else◌, take, map,
}
use bit_drive.Prelude.Eq.{eqb, bytes_eq, nat_eq}
use bit_drive.Prelude.Map.{Map, lookup, insert, remove}
use bit_drive.Errors.{
  Result, ok, err, panic, ◌>>=◌, authentication_failed, serialization, deserialization, encryption,
  decryption,
}
use bit_drive.Pb.Auth.{AuthChallenge, AuthResponse, AuthSuccess, AuthMethod, PairingRecord, psk}
use Keys.{
  Crypto, Outcome, done, failed, SessionKeys, ChannelKeys, sealed, opened, derive_session_keys,
  derive_from,
}

pub record AuthManager : Type 0 where
  pub secret : Option (List ℕ)
  pub method : AuthMethod
  pub session_keys : Option SessionKeys
  pub pairing_records : Map (List ℕ) PairingRecord

unfoldable pub new : AuthManager
new = record { secret = none; method = psk; session_keys = none; pairing_records = [] }

unfoldable pub set_psk : AuthManager → List ℕ → AuthManager
set_psk a key = record a { secret = some key }

unfoldable pub set_method : AuthManager → AuthMethod → AuthManager
set_method a method = record a { method = method }

unfoldable pub generate_challenge : List ℕ → List ℕ → AuthChallenge
generate_challenge challenge salt = record {
  challenge = challenge;
  method = "psk";
  salt = salt;
  iterations = 100000;
}

-- `b"client"` and `b"server"`.
abbrev pub client_label : List ℕ
client_label = 99 ∷ 108 ∷ 105 ∷ 101 ∷ 110 ∷ 116 ∷ []

abbrev pub server_label : List ℕ
server_label = 115 ∷ 101 ∷ 114 ∷ 118 ∷ 101 ∷ 114 ∷ []

-- `map_err` of the set-up of an HMAC.
abbrev pub made : Option (List ℕ) → Result (List ℕ)
made none = err (authentication_failed "HMAC init failed")
made (some bytes) = ok bytes

abbrev pub serialized : Outcome (List ℕ) → Result (List ℕ)
serialized (done bytes) = ok bytes
serialized (failed text) = err (serialization text)

abbrev pub deserialized : Outcome SessionKeys → Result SessionKeys
deserialized (done keys) = ok keys
deserialized (failed text) = err (deserialization text)

unfoldable pub get_psk : AuthManager → Option (List ℕ)
get_psk a = a.secret

-- `self.get_psk().ok_or(..)`
abbrev pub configured : Option (List ℕ) → Result (List ℕ)
configured none = err (authentication_failed "PSK not configured")
configured (some key) = ok key

unfoldable pub clear_keys : AuthManager → AuthManager
clear_keys a = record a { session_keys = none }

keys_of_channel : ℕ → Option SessionKeys → Option ChannelKeys
keys_of_channel channel_id none = none
keys_of_channel channel_id (some keys) = lookup channel_id keys.channel_keys

unfoldable pub channel_keys : AuthManager → ℕ → Option ChannelKeys
unfolding keys_of_channel
channel_keys a channel_id = keys_of_channel channel_id a.session_keys

device_of : Option (List ℕ) → List ℕ
device_of none = []
device_of (some id) = id

unfoldable pub add_pairing : AuthManager → PairingRecord → AuthManager
unfolding device_of
add_pairing a pairing = record a {
  pairing_records = insert (device_of pairing.device_id) pairing a.pairing_records;
}

unfoldable pub get_pairing : AuthManager → List ℕ → Option PairingRecord
get_pairing a device_id = lookup device_id a.pairing_records

unfoldable pub list_pairings : AuthManager → List PairingRecord
list_pairings a = map (λ e. e.1) a.pairing_records

abbrev is_there : Option PairingRecord → Bool
is_there none = false
is_there (some pairing) = true

unfoldable pub remove_pairing : AuthManager → List ℕ → AuthManager × Bool
remove_pairing a device_id = (
  record a { pairing_records = remove device_id a.pairing_records },
  is_there (lookup device_id a.pairing_records),
)

module _ (crypto : Crypto) where
  unfoldable pub compute_client_hmac : List ℕ → AuthChallenge → List ℕ → Result (List ℕ)
  compute_client_hmac key challenge client_nonce =
      made (crypto.hmac key (challenge.challenge ++ (client_nonce ++ client_label)))

  unfoldable pub compute_server_hmac : List ℕ → AuthChallenge → List ℕ → Result (List ℕ)
  compute_server_hmac key challenge client_nonce =
      made (crypto.hmac key (challenge.challenge ++ (client_nonce ++ server_label)))

  unfoldable pub encrypt_session_keys : SessionKeys → Result (List ℕ)
  encrypt_session_keys keys = do
    plaintext ← serialized (crypto.serialize keys)
    sealed (crypto.encrypt keys.master_key (take 12 keys.iv_salt) plaintext)

  unfoldable pub decrypt_session_keys : List ℕ → List ℕ → List ℕ → Result SessionKeys
  decrypt_session_keys bytes master_key iv_salt = do
    plaintext ← opened (crypto.decrypt master_key (take 12 iv_salt) bytes)
    deserialized (crypto.deserialize plaintext)

  -- A new set of keys is stored.
  unfoldable pub store : AuthManager → Result SessionKeys → AuthManager
  store a (ok keys) = record a { session_keys = some keys }
  store a (err e) = a
  store a panic = a

  -- `verify_response` up to the keys: the test of the client's proof, then the derivation.
  unfoldable pub accept_client : AuthManager → AuthChallenge → AuthResponse → Result SessionKeys
  unfolding get_psk compute_client_hmac
  accept_client a challenge response = do
    key ← configured (get_psk a)
    expected ← compute_client_hmac key challenge response.client_nonce
    (if eqb expected response.response
        then derive_session_keys crypto key challenge.salt response.client_nonce
        else err (authentication_failed "Invalid HMAC"))

  -- The rest of `verify_response`, after the keys are stored.
  unfoldable pub confirm :
      AuthManager → AuthChallenge → AuthResponse → SessionKeys → Result AuthSuccess
  unfolding get_psk compute_server_hmac encrypt_session_keys
  confirm a challenge response keys = do
    key ← configured (get_psk a)
    server_hmac ← compute_server_hmac key challenge response.client_nonce
    encrypted_keys ← encrypt_session_keys keys
    ok (record { key_confirmation = server_hmac; session_keys_encrypted = encrypted_keys })

  unfoldable pub verify_response :
      AuthManager → AuthChallenge → AuthResponse → AuthManager × Result AuthSuccess
  unfolding accept_client confirm store
  verify_response a challenge response =
      let keys = accept_client a challenge response in
      (store a keys, keys >>= confirm a challenge response)

  -- The message of the server is not looked at, and the nonce is 32 zeros.
  unfoldable pub verify_server_response :
      AuthManager → AuthChallenge → AuthSuccess → AuthManager × Result SessionKeys
  unfolding get_psk store
  verify_server_response a challenge response =
      let keys = configured (get_psk a) >>= λ key. derive_session_keys crypto key challenge.salt (
        0 ∷ 0 ∷ 0 ∷ 0 ∷ 0 ∷ 0 ∷ 0 ∷ 0 ∷ 0 ∷ 0 ∷ 0 ∷ 0 ∷ 0 ∷ 0 ∷ 0 ∷ 0 ∷ 0 ∷ 0 ∷ 0 ∷ 0 ∷ 0 ∷ 0 ∷ 0
        ∷ 0 ∷ 0 ∷ 0 ∷ 0 ∷ 0 ∷ 0 ∷ 0 ∷ 0 ∷ 0 ∷ []) in
      (store a keys, keys)

  unfoldable pub rotate_keys : AuthManager → List ℕ → AuthManager × Result SessionKeys
  unfolding store
  rotate_keys a new_master_key =
      let keys = derive_from crypto none new_master_key new_master_key in (store a keys, keys)

  -- `authenticate_data`; the `expect` is a panic.
  abbrev pub expected_tag : Option (List ℕ) → Result (List ℕ)
  expected_tag none = panic
  expected_tag (some bytes) = ok bytes

  unfoldable pub authenticate_data : List ℕ → ChannelKeys → Result (List ℕ)
  authenticate_data message keys = expected_tag (crypto.hmac keys.authentication_key message)

  unfoldable pub verify_authentication : List ℕ → List ℕ → ChannelKeys → Result Bool
  unfolding authenticate_data
  verify_authentication message tag keys =
      authenticate_data message keys >>= λ expected. ok (eqb expected tag)
