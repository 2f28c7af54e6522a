-- ===== src/Tests/Keys.antt =====
-- Examples of desktop/protocol/src/auth.rs.
use bit_drive.Auth.Transport.{decrypt-decode-encode}
use bit_drive.Pb.FrameType.{data_frame, as_i32}
use bit_drive.Frame.{Frame, encode, decode}
use bit_drive.Frame.RoundTrip.{IsSendable}
use bit_drive.Tests.{byte_sum, byte_sum-IsU32, codec_at, urgent_flags, hello}
use bit_drive.Prelude.{arith, ◌++◌, ℕ, zero, suc, ◌≡◌, refl, none, some, List, [], ◌∷◌, ◌++◌, drop}
use bit_drive.Prelude.Eq.{bytes_beq}
use bit_drive.Prelude.Map.{Map, insert}
use bit_drive.Errors.{ok}
use bit_drive.Pb.Auth.{AuthChallenge, AuthResponse, AuthSuccess, psk}
use bit_drive.Auth.Keys.{
  Crypto, done, failed, SessionKeys, ChannelKeys, channel_info, master_info, enc_info, auth_info,
  iv_info, derive_session_keys, encrypt_with_channel_keys, decrypt_with_channel_keys,
}
use bit_drive.Auth.{
  AuthManager, client_label, server_label, verify_response, verify_server_response,
}
use bit_drive.Auth.Agreement.{
  IsProven, verify_response-IsProven, verify_server_response-verify_response,
}

abbrev zeros : List ℕ
zeros = 0 ∷ 0 ∷ 0 ∷ 0 ∷ 0 ∷ 0 ∷ 0 ∷ 0 ∷ 0 ∷ 0 ∷ 0 ∷ 0 ∷ 0 ∷ 0 ∷ 0 ∷ 0 ∷ []

-- No cryptography: a derived key is its label, an HMAC the key and the data, a ciphertext 16 zeros and
-- the text.
abbrev toy : Crypto
toy = record {
  hkdf = λ salt input label size. some label;
  hmac = λ key message. some (key ++ message);
  encrypt = λ key nonce text. done (zeros ++ text);
  decrypt = λ key nonce bytes. done (drop 16 bytes);
  serialize = λ keys. done keys.master_key;
  deserialize = λ bytes. failed "no keys";
}

abbrev toy_channel : ℕ → ChannelKeys
toy_channel id = record {
  encryption_key = channel_info id;
  authentication_key = channel_info id ++ 45 ∷ 97 ∷ 117 ∷ 116 ∷ 104 ∷ [];
  iv_salt = channel_info id ++ 45 ∷ 105 ∷ 118 ∷ [];
}

abbrev toy_channels : ℕ → ℕ → Map ℕ ChannelKeys
toy_channels zero id = []
toy_channels (suc left) id = (id, toy_channel id) ∷ toy_channels left (suc id)

abbrev toy_keys : SessionKeys
toy_keys = record {
  master_key = master_info;
  encryption_key = enc_info;
  authentication_key = auth_info;
  iv_salt = iv_info;
  channel_keys = toy_channels 16 0;
}

abbrev manager : AuthManager
manager = record {
  secret = some (42 ∷ []);
  method = psk;
  session_keys = none;
  pairing_records = [];
}

abbrev question : AuthChallenge
question = record { challenge = 1 ∷ []; method = "psk"; salt = 2 ∷ []; iterations = 100000 }

abbrev answer : List ℕ → AuthResponse
answer proof = record { response = proof; client_nonce = 9 ∷ []; public_key = [] }

abbrev right : AuthResponse
right = answer (42 ∷ 1 ∷ 9 ∷ client_label)

abbrev accepted : AuthSuccess
accepted = record {
  key_confirmation = 42 ∷ 1 ∷ 9 ∷ server_label;
  session_keys_encrypted = zeros ++ master_info;
}

abbrev after : AuthManager
after = record manager { session_keys = some toy_keys }

accepts : verify_response toy manager question right ≡ (after, ok accepted)
unfolding verify_response derive_session_keys bytes_beq channel_info insert
accepts = refl

verify_response-IsProven_example :
    (key : List ℕ) × (keys : SessionKeys) × IsProven toy manager question right key keys accepted
    × (after ≡ record manager { session_keys = some keys })
verify_response-IsProven_example =
    verify_response-IsProven toy manager after question right accepted accepts

verify_server_response-verify_response_example :
    (keys : SessionKeys) × (after.session_keys ≡ some keys)
    × (verify_server_response toy manager question accepted
        ≡ (record manager { session_keys = some keys }, ok keys))
verify_server_response-verify_response_example =
    verify_server_response-verify_response toy manager after manager question right accepted refl
      accepts

-- The last 16 of 18 bytes are the tag.
abbrev toy_tag : List ℕ
toy_tag = 0 ∷ 0 ∷ 0 ∷ 0 ∷ 0 ∷ 0 ∷ 0 ∷ 0 ∷ 0 ∷ 0 ∷ 0 ∷ 0 ∷ 0 ∷ 0 ∷ 5 ∷ 6 ∷ []

done-injective : {a b : List ℕ} → done a ≡ done b → a ≡ b
done-injective h = cc

toy_undone :
    (key nonce text bytes : List ℕ)
    → toy.encrypt key nonce text ≡ done bytes
    → toy.decrypt key nonce bytes ≡ done text
toy_undone key nonce text bytes h = rw (← done-injective h) refl

toy_sealed : encrypt_with_channel_keys toy (5 ∷ 6 ∷ []) (toy_channel 3) 8 ≡ ok (0 ∷ 0 ∷ [], toy_tag)
unfolding encrypt_with_channel_keys
toy_sealed = refl

-- The text 5, 6 under the sequence number 8, in a frame on channel 3.
abbrev sealed_frame : Frame
sealed_frame = record hello { payload = 0 ∷ 0 ∷ []; auth_tag = toy_tag }

sealed_frame-IsSendable : IsSendable sealed_frame data_frame urgent_flags 3
unfolding as_i32
sealed_frame-IsSendable = record {
  magic_eq = refl;
  version_u32 = omega arith;
  type_eq = refl;
  flags_eq = refl;
  channel_eq = refl;
  channel_u32 = omega arith;
  payload_u32 = omega arith;
  tag_length = refl;
}

decrypt-decode-encode_example :
    (bytes : List ℕ) × (g : Frame) × ((encode byte_sum (codec_at 8) sealed_frame).1 ≡ ok bytes)
    × ((decode byte_sum (codec_at 5) (bytes ++ 1 ∷ [])).1 ≡ 1 ∷ [])
    × ((decode byte_sum (codec_at 5) (bytes ++ 1 ∷ [])).2 ≡ ok (some g))
    × (g.header.sequence ≡ some 8)
    × (decrypt_with_channel_keys toy g.payload g.auth_tag (toy_channel 3) 8 ≡ ok (5 ∷ 6 ∷ []))
decrypt-decode-encode_example =
    decrypt-decode-encode toy byte_sum (codec_at 8) (codec_at 5) (toy_channel 3) (5 ∷ 6 ∷ [])
      sealed_frame data_frame urgent_flags 3 (1 ∷ []) toy_undone byte_sum-IsU32
      sealed_frame-IsSendable (omega arith) (omega arith) toy_sealed
