-- ===== src/Pb/Auth.antt =====
-- The messages of authentication and pairing.
use bit_drive.Prelude.{ℕ, String, Bool, Option, List}
use bit_drive.Prelude.Map.{Map}

pub record AuthChallenge : Type 0 where
  pub challenge : List ℕ
  pub method : String
  pub salt : List ℕ
  pub iterations : ℕ

pub record AuthResponse : Type 0 where
  pub response : List ℕ
  pub client_nonce : List ℕ
  pub public_key : List ℕ

pub record AuthSuccess : Type 0 where
  pub key_confirmation : List ℕ
  pub session_keys_encrypted : List ℕ

pub data AuthMethod : Type 0 where
  psk opaque cert : AuthMethod

pub record PairingRecord : Type 0 where
  pub device_id : Option (List ℕ)
  pub device_name : String
  pub psk : List ℕ
  pub public_key : List ℕ
  pub paired_at : Option ℕ
  pub last_seen : Option ℕ
  pub trusted : Bool
  pub connection_count : ℕ
  pub metadata : Map String String
