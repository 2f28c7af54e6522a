-- ===== src/Errors.antt =====
-- The error type of desktop/protocol/src/error.rs and the result of a fallible operation.
use bit_drive.Prelude.{
  ℕ, String, Bool, true, false, List, Option, none, some, ◌≡◌, refl, arith, ◌⊎◌, ◌≢◌, inl, inr, sym,
}

-- A text inside an error is kept where the source writes it out; `std::io::Error` is its text.
pub data ProtocolError : Type 0 where
  io : String → ProtocolError
  protocol : String → ProtocolError
  bluetooth : String → ProtocolError
  invalid_frame : String → ProtocolError
  invalid_header : String → ProtocolError
  checksum_mismatch : (expected actual : ℕ) → ProtocolError
  frame_too_large : (size max : ℕ) → ProtocolError
  payload_too_large : (size max : ℕ) → ProtocolError
  invalid_magic : (expected actual : ℕ) → ProtocolError
  unsupported_version : (version : ℕ) → ProtocolError
  unknown_frame_type : (type : ℕ) → ProtocolError
  sequence_mismatch : (expected actual : ℕ) → ProtocolError
  replay_detected : (sequence : ℕ) → ProtocolError
  decryption_failed : String → ProtocolError
  authentication_failed : String → ProtocolError
  auth_timeout : ProtocolError
  session_not_found : (session_id : List ℕ) → ProtocolError
  session_exists : (session_id : List ℕ) → ProtocolError
  session_closed : (reason : String) → ProtocolError
  session_state_error : (expected actual : String) → ProtocolError
  channel_not_found : (channel_id : ℕ) → ProtocolError
  channel_closed : (channel_id : ℕ) → ProtocolError
  channel_window_exhausted : (channel_id : ℕ) → ProtocolError
  flow_control : String → ProtocolError
  capability_negotiation : String → ProtocolError
  capability_not_supported : (service_id : String) → ProtocolError
  required_capability_missing : (service_id : String) → ProtocolError
  service_not_found : (service_id : String) → ProtocolError
  service_already_registered : (service_id : String) → ProtocolError
  service_not_registered : (service_id : String) → ProtocolError
  invalid_service_config : String → ProtocolError
  key_derivation : String → ProtocolError
  encryption : String → ProtocolError
  decryption : String → ProtocolError
  invalid_key_length : (expected actual : ℕ) → ProtocolError
  invalid_nonce_length : (expected actual : ℕ) → ProtocolError
  invalid_auth_tag_length : (expected actual : ℕ) → ProtocolError
  config : String → ProtocolError
  database : String → ProtocolError
  serialization : String → ProtocolError
  deserialization : String → ProtocolError
  timeout : String → ProtocolError
  cancelled not_connected already_connected peer_disconnected buffer_overflow : ProtocolError
  invalid_argument : String → ProtocolError
  internal : String → ProtocolError

-- `Result<T>`. `panic` is no value of the source: the thread unwinds (an `unwrap` of `None`, a
-- division by zero).
pub data Result {ℓ} (A : Type ℓ) : Type ℓ where
  ok : A → Result A
  err : ProtocolError → Result A
  panic : Result A

-- `?`
infixl 5 ◌>>=◌
abbrev pub ◌>>=◌ {ℓ κ} : {A : Type ℓ} {B : Type κ} → Result A → (A → Result B) → Result B
ok a >>= f = f a
err e >>= f = err e
panic >>= f = panic

abbrev pub unwrap {ℓ} : {A : Type ℓ} → Option A → Result A
unwrap none = panic
unwrap (some a) = ok a

pub is_retryable : ProtocolError → Bool
is_retryable (timeout _) = true
is_retryable (io _) = true
is_retryable (channel_window_exhausted _) = true
is_retryable (flow_control _) = true
is_retryable _ = false

-- The error ends the session.
pub is_fatal : ProtocolError → Bool
is_fatal (authentication_failed _) = true
is_fatal (decryption_failed _) = true
is_fatal (replay_detected _) = true
is_fatal (sequence_mismatch _ _) = true
is_fatal (checksum_mismatch _ _) = true
is_fatal (invalid_magic _ _) = true
is_fatal (key_derivation _) = true
is_fatal _ = false

-- No error is both retried and ends the session: at most one of the two tests passes.
pub retryable-not_fatal : (e : ProtocolError) → (is_retryable e ≡ false) ⊎ (is_fatal e ≡ false)
unfolding is_retryable is_fatal
retryable-not_fatal e = ground arith

-- What a chain that succeeds went through.
pub >>=-ok {ℓ κ} :
    {A : Type ℓ} {B : Type κ} (r : Result A) (f : A → Result B) (b : B)
    → (r >>= f) ≡ ok b
    → (a : A) × (r ≡ ok a) × (f a ≡ ok b)
>>=-ok (ok a) f b h = (a, refl, h)
>>=-ok (err e) f b h = absurd (cc)
>>=-ok panic f b h = absurd (cc)

pub ok-injective {ℓ} : {A : Type ℓ} {a b : A} → ok a ≡ ok b → a ≡ b
ok-injective h = cc

pub err≢ok {ℓ} : {A : Type ℓ} {e : ProtocolError} {a : A} → err e ≢ ok a
err≢ok h = cc

pub panic≢ok {ℓ} : {A : Type ℓ} {a : A} → panic ≢ ok a
panic≢ok h = cc

pub err≢panic {ℓ} : {A : Type ℓ} {e : ProtocolError} → ◌≢◌ {A = Result A} (err e) panic
err≢panic h = cc

pub err-injective {ℓ} :
    {A : Type ℓ} {d e : ProtocolError} → ◌≡◌ {A = Result A} (err d) (err e) → d ≡ e
err-injective h = cc

-- Where a chain that fails stopped.
pub >>=-err {ℓ κ} :
    {A : Type ℓ} {B : Type κ} (r : Result A) (f : A → Result B) (e : ProtocolError)
    → (r >>= f) ≡ err e
    → (r ≡ err e) ⊎ ((a : A) × (r ≡ ok a) × (f a ≡ err e))
>>=-err (ok a) f e h = inr (a, refl, h)
>>=-err (err d) f e h = inl (rw (err-injective h) refl)
>>=-err panic f e h = absurd (err≢panic (sym h))
