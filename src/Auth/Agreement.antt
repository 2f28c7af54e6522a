-- ===== src/Auth/Agreement.antt =====
-- What `verify_response` and `verify_server_response` of desktop/protocol/src/auth.rs establish.
use bit_drive.Prelude.{
  ℕ, ◌≡◌, ◌≢◌, ◌∙◌, sym, ap, refl, Bool-cases, inl, inr, Option, none, some, List, ◌++◌,
  some-injective,
}
use bit_drive.Prelude.Eq.{eqb, bytes_eq}
use bit_drive.Errors.{ok, err, >>=-ok, ok-injective, err≢ok, authentication_failed}
use bit_drive.Pb.Auth.{AuthChallenge, AuthResponse, AuthSuccess}
use bit_drive.Auth.Keys.{Crypto, SessionKeys, derive_session_keys}
use bit_drive.Auth.{
  AuthManager, client_label, server_label, made, configured, get_psk, compute_client_hmac,
  compute_server_hmac, encrypt_session_keys, store, accept_client, confirm, verify_response,
  verify_server_response,
}

configured-ok : (o : Option (List ℕ)) (key : List ℕ) → configured o ≡ ok key → o ≡ some key
configured-ok none key h = absurd (err≢ok h)
configured-ok (some k) key h = ap some (ok-injective h)

made-ok : (o : Option (List ℕ)) (bytes : List ℕ) → made o ≡ ok bytes → o ≡ some bytes
made-ok none bytes h = absurd (err≢ok h)
made-ok (some b) bytes h = ap some (ok-injective h)

module _ (crypto : Crypto) where
  -- What a success of `verify_response` rests on.
  pub record IsProven (a : AuthManager) (challenge : AuthChallenge) (response : AuthResponse)
      (key : List ℕ) (keys : SessionKeys) (success : AuthSuccess) : Type 0 where
    pub secret : a.secret ≡ some key
    pub proof :
        crypto.hmac key (challenge.challenge ++ (response.client_nonce ++ client_label))
        ≡ some response.response
    pub derivation : derive_session_keys crypto key challenge.salt response.client_nonce ≡ ok keys
    pub confirmation :
        crypto.hmac key (challenge.challenge ++ (response.client_nonce ++ server_label))
        ≡ some success.key_confirmation
    pub sealed_keys : encrypt_session_keys crypto keys ≡ ok success.session_keys_encrypted

  accept_client-ok :
      (a : AuthManager) (challenge : AuthChallenge) (response : AuthResponse) (keys : SessionKeys)
      → accept_client crypto a challenge response ≡ ok keys
      → (key : List ℕ) × (a.secret ≡ some key)
        × (crypto.hmac key (challenge.challenge ++ (response.client_nonce ++ client_label))
            ≡ some response.response)
        × (derive_session_keys crypto key challenge.salt response.client_nonce ≡ ok keys)
  unfolding accept_client get_psk compute_client_hmac
  accept_client-ok a challenge response keys h =
      let (key, key_ok, h1) = >>=-ok (configured a.secret) _ keys h in
      let (expected, made_it, h2) =
        >>=-ok
          (made (crypto.hmac key (challenge.challenge ++ (response.client_nonce ++ client_label))))
          _ keys h1 in
      elim (Bool-cases (eqb expected response.response)) [
        | inr other ↦ absurd (err≢ok (rw other at h2))
        | inl same ↦ (
          key,
          configured-ok a.secret key key_ok,
          made-ok _ expected made_it
              ∙ ap some ((bytes_eq.beq_iff expected response.response).0 same),
          rw same at h2,
        )
      ]

  -- `verify_response` succeeds only for a configured key and a response that holds the client's HMAC
  -- under it. It then stores the keys that the challenge derives from the key, answers with the
  -- server's HMAC over the same challenge and nonce and with those keys encrypted, and changes
  -- nothing else.
  pub verify_response-IsProven :
      (a a' : AuthManager) (challenge : AuthChallenge) (response : AuthResponse)
      (success : AuthSuccess)
      → verify_response crypto a challenge response ≡ (a', ok success)
      → (key : List ℕ) × (keys : SessionKeys) × IsProven a challenge response key keys success
        × (a' ≡ record a { session_keys = some keys })
  unfolding verify_response confirm get_psk compute_server_hmac store
  verify_response-IsProven a a' challenge response success h =
      let (keys, accepted, h1) =
        >>=-ok (accept_client crypto a challenge response) _ success (ap (λ p. p.1) h) in
      let (key, secret, proof, derivation) = accept_client-ok a challenge response keys accepted in
      let (key', key_ok, h2) = >>=-ok (configured a.secret) _ success h1 in
      let same_key : key' ≡ key =
        some-injective (sym (configured-ok a.secret key' key_ok) ∙ secret) in
      let (mac, mac_ok, h3) =
        >>=-ok
          (made (crypto.hmac key' (challenge.challenge ++ (response.client_nonce ++ server_label))))
          _ success h2 in
      let (bytes, bytes_ok, h4) = >>=-ok (encrypt_session_keys crypto keys) _ success h3 in
      (
        key,
        keys,
        record {
          secret = secret;
          proof = proof;
          derivation = derivation;
          confirmation =
              rw (← same_key) (made-ok _ mac mac_ok)
              ∙ ap (λ x. some x.key_confirmation) (ok-injective h4);
          sealed_keys = bytes_ok ∙ ap (λ x. ok x.session_keys_encrypted) (ok-injective h4);
        },
        sym (ap (λ p. p.0) h) ∙ ap (store crypto a) accepted,
      )

  -- A response that does not hold the HMAC of the challenge under the configured key is refused, and
  -- the manager stays as it was: no keys are stored.
  pub verify_response_refuses :
      (a : AuthManager) (challenge : AuthChallenge) (response : AuthResponse)
      (key expected : List ℕ)
      → a.secret ≡ some key
      → crypto.hmac key (challenge.challenge ++ (response.client_nonce ++ client_label))
        ≡ some expected
      → expected ≢ response.response
      → verify_response crypto a challenge response
        ≡ (a, err (authentication_failed "Invalid HMAC"))
  unfolding verify_response accept_client get_psk compute_client_hmac store
  verify_response_refuses a challenge response key expected secret mac wrong =
      elim (Bool-cases (eqb expected response.response)) [
        | inl same ↦ absurd (wrong ((bytes_eq.beq_iff expected response.response).0 same))
        | inr other ↦ rw (secret, mac, other) refl
      ]

  -- Once the server has accepted the client, a client with the same key that is given the server's
  -- success message arrives at the keys that the server stores, whatever nonce it sent.
  pub verify_server_response-verify_response :
      (server server' client : AuthManager) (challenge : AuthChallenge) (response : AuthResponse)
      (success : AuthSuccess)
      → client.secret ≡ server.secret
      → verify_response crypto server challenge response ≡ (server', ok success)
      → (keys : SessionKeys) × (server'.session_keys ≡ some keys)
        × (verify_server_response crypto client challenge success
            ≡ (record client { session_keys = some keys }, ok keys))
  unfolding verify_server_response get_psk store derive_session_keys
  verify_server_response-verify_response server server' client challenge response success same h =
      let (key, keys, proven, after) =
        verify_response-IsProven server server' challenge response success h in
      (keys, ap (λ x. x.session_keys) after, rw (same, proven.secret, proven.derivation) refl)
