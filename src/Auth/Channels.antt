-- ===== src/Auth/Channels.antt =====
-- The channel keys that desktop/protocol/src/auth.rs derives.
use bit_drive.Prelude.{
  ℕ, zero, suc, ◌+◌, ◌≤◌, ◌<◌, ◌≡◌, ◌≢◌, ◌⊎◌, inl, inr, ◌∙◌, sym, ap, ltb, Bool-cases, ltb→lt,
  not_ltb→le, Option, none, some, List, [], arith, ◌==◌, ==_iff, not_==,
}
use bit_drive.Prelude.Eq.{nat_eq}
use bit_drive.Prelude.Map.{Map, lookup, insert, lookup-insert_ne, lookup-insert_self}
use bit_drive.Errors.{ok, >>=-ok, ok-injective}
use bit_drive.Pb.Auth.{AuthChallenge, AuthResponse, AuthSuccess}
use bit_drive.Auth.Keys.{
  Crypto, SessionKeys, ChannelKeys, derived, derive_channel_keys, derive_channels, derive_from,
  derive_session_keys, master_info, enc_info, auth_info, iv_info,
}
use bit_drive.Auth.{AuthManager, channel_keys, verify_response}
use bit_drive.Auth.Agreement.{verify_response-IsProven}

module _ (crypto : Crypto) (master : List ℕ) where
  derive_channels-outside :
      (left first : ℕ) (acc m : Map ℕ ChannelKeys) (id : ℕ)
      → derive_channels crypto left first master acc ≡ ok m
      → (id < first) ⊎ (first + left ≤ id)
      → lookup id m ≡ lookup id acc
  unfolding derive_channels
  derive_channels-outside zero first acc m id h out = ap (lookup id) (sym (ok-injective h))
  derive_channels-outside (suc left) first acc m id h out =
      let (k, k_ok, h1) = >>=-ok (derive_channel_keys crypto master first) _ m h in
      let ne : id ≢ first = ground arith in
      let out' : (id < suc first) ⊎ (suc first + left ≤ id) = ground arith in
      derive_channels-outside left (suc first) (insert first k acc) m id h1 out'
      ∙ lookup-insert_ne first id k acc ne

  derive_channels-inside :
      (left first : ℕ) (acc m : Map ℕ ChannelKeys) (id : ℕ)
      → derive_channels crypto left first master acc ≡ ok m
      → first ≤ id
      → id < first + left
      → (k : ChannelKeys) × (lookup id m ≡ some k) × (derive_channel_keys crypto master id ≡ ok k)
  unfolding derive_channels
  derive_channels-inside zero first acc m id h low high = absurd (omega arith)
  derive_channels-inside (suc left) first acc m id h low high =
      let (k, k_ok, h1) = >>=-ok (derive_channel_keys crypto master first) _ m h in
      elim (Bool-cases (first == id)) [
        | inl same ↦
            let here = (==_iff first id).0 same in
            (
              k,
              derive_channels-outside left (suc first) (insert first k acc) m id h1
                    (inl (omega (arith, here)))
                  ∙ rw (← here) (lookup-insert_self first k acc),
              rw (← here) k_ok,
            )
        | inr other ↦
            derive_channels-inside left (suc first) (insert first k acc) m id h1
              (omega (arith, not_== first id other)) (omega arith)
      ]

  -- What derives the keys of a session derives its channel keys.
  derive_from-channels :
      (crypto_salt : Option (List ℕ)) (input : List ℕ) (keys : SessionKeys)
      → derive_from crypto crypto_salt input master ≡ ok keys
      → (keys.master_key ≡ master) × (derive_channels crypto 16 0 master [] ≡ ok keys.channel_keys)
  unfolding derive_from
  derive_from-channels salt input keys h =
      let (enc, e1, h1) =
        >>=-ok (derived "Encryption key derivation failed" (crypto.hkdf salt input enc_info 32)) _
          keys h in
      let (auth, e2, h2) =
        >>=-ok (derived "Auth key derivation failed" (crypto.hkdf salt input auth_info 32)) _ keys
          h1 in
      let (iv, e3, h3) =
        >>=-ok (derived "IV salt derivation failed" (crypto.hkdf salt input iv_info 16)) _ keys
          h2 in
      let (channels, e4, h4) = >>=-ok (derive_channels crypto 16 0 master []) _ keys h3 in
      (
        sym (ap (λ k. k.master_key) (ok-injective h4)),
        e4 ∙ ap (λ k. ok k.channel_keys) (ok-injective h4),
      )

-- After the client is accepted, exactly the channels 0 to 15 have keys, and those of a channel are the
-- ones that the stored master key and the number of the channel derive.
pub channel_keys-verify_response :
    (crypto : Crypto) (a a' : AuthManager) (challenge : AuthChallenge) (response : AuthResponse)
    (success : AuthSuccess) (id : ℕ)
    → verify_response crypto a challenge response ≡ (a', ok success)
    → (keys : SessionKeys) × (a'.session_keys ≡ some keys)
      × (((id < 16)
            × ((k : ChannelKeys) × (channel_keys a' id ≡ some k)
                × (derive_channel_keys crypto keys.master_key id ≡ ok k)))
          ⊎ ((16 ≤ id) × (channel_keys a' id ≡ none)))
unfolding channel_keys derive_session_keys lookup
channel_keys-verify_response crypto a a' challenge response success id h =
    let (key, keys, proven, after) =
      verify_response-IsProven crypto a a' challenge response success h in
    let (master, m_ok, h1) =
      >>=-ok
        (derived "Master key derivation failed"
          (crypto.hkdf (some challenge.salt) key master_info 32))
        _ keys proven.derivation in
    let (master_eq, channels) = derive_from-channels crypto master (some master) [] keys h1 in
    (
      keys,
      ap (λ x. x.session_keys) after,
      elim (Bool-cases (ltb id 16)) [
        | inl low ↦
            let (k, found, k_ok) =
              derive_channels-inside crypto master 16 0 [] keys.channel_keys id channels
                (omega arith) (ltb→lt id 16 low) in
            inl (ltb→lt id 16 low, (k, rw after found, rw master_eq k_ok))
        | inr high ↦ inr (
          not_ltb→le id 16 high,
          rw after (
              derive_channels-outside crypto master 16 0 [] keys.channel_keys id channels
                (inr (not_ltb→le id 16 high))),
        )
      ],
    )
