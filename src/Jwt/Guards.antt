-- ===== src/Jwt/Guards.antt =====
-- What the guards of jwt_shared.py let through.
use sc_tpcrs.Prelude.{
  ℕ, ◌+◌, ◌*◌, ◌<◌, ◌≤◌, String, ◌≡◌, refl, sym, ap, subst, inl, inr, Bool, some, ◌==◌, Bool-cases,
  ok, err, Error, bind-ok, ok-injective, str_eq_of,
}
use sc_tpcrs.Jwt.{
  Claims, Decoded, claims, expired, invalid, Signing, Secret, secret_of, payload_of, access_claims,
  bridge_claims, create_access_token, create_mfa_bridge_token, checked_type, decode_token,
  get_current_user,
}

-- A token that was signed of the claims with the configured secret is decoded to them from its time of issue
-- until it expires.
abbrev pub RoundTrips : Signing → Secret → Claims → Type 0
RoundTrips s secret c =
    (key : String) (now : ℕ)
    → secret_of secret ≡ ok key
    → c.iat ≤ now
    → now < c.exp
    → s.decode (s.encode c key) key now ≡ claims c

checked_type-ok :
    (expected : String) (d : Decoded) (c : Claims)
    → checked_type expected d ≡ ok c
    → (d ≡ claims c) × (c.token_type ≡ expected)
unfolding checked_type
checked_type-ok expected expired c h = cc
checked_type-ok expected invalid c h = cc
checked_type-ok expected (claims d) c h = elim (Bool-cases (d.token_type == expected)) [
  | inl same ↦
      let it : d ≡ c = ok-injective (rw same at h) in
      (ap claims it, subst (λ (x : Claims). x.token_type ≡ expected) it (str_eq_of _ _ same))
  | inr other ↦ cc (rw other at h)
]

module _ (s : Signing) (secret : Secret) where
  -- What is accepted was signed with the secret, and is of the expected type.
  pub record IsAccepted (token expected : String) (now : ℕ) (c : Claims) : Type 0 where
    pub key : String
    pub keyed : secret_of secret ≡ ok key
    pub decoded : s.decode token key now ≡ claims c
    pub typed : c.token_type ≡ expected

  -- A token that is accepted was decoded with the configured secret, and its claims are of the
  -- expected type.
  pub decode_token-IsAccepted :
      (token expected : String) (now : ℕ) (c : Claims)
      → decode_token s secret token expected now ≡ ok c
      → IsAccepted token expected now c
  unfolding decode_token
  decode_token-IsAccepted token expected now c h =
      let (key, keyed, rest) = bind-ok (secret_of secret) h in
      let checked = checked_type-ok expected (s.decode token key now) c rest in
      record { key = key; keyed = keyed; decoded = checked.0; typed = checked.1 }

  -- Where a bridge token decodes to its claims from its issue until it expires, with the configured
  -- secret, it is refused in that time as an access token with status 401: the password alone gives
  -- no user.
  pub get_current_user-bridge :
      (subject token : String) (ttl issued now : ℕ)
      → RoundTrips s secret (bridge_claims subject ttl issued)
      → issued ≤ now
      → now < issued + ttl
      → create_mfa_bridge_token s secret subject ttl issued ≡ ok token
      → get_current_user s secret (some token) now ≡ err (Error.http 401 "Wrong token type")
  unfolding create_mfa_bridge_token get_current_user decode_token checked_type
  get_current_user-bridge subject token ttl issued now trips begun live h =
      let (key, keyed, made) = bind-ok (secret_of secret) h in
      rw (keyed, sym (ok-injective made), trips key now keyed begun live) refl

  -- Where an access token decodes to its claims from its issue until it expires, with the
  -- configured secret, it gives in that time the user it was made for back.
  pub get_current_user-access :
      (subject role token : String) (mfa : Bool) (ttl_minutes issued now : ℕ)
      → RoundTrips s secret (access_claims subject role mfa ttl_minutes issued)
      → issued ≤ now
      → now < issued + ttl_minutes * 60
      → create_access_token s secret subject role mfa ttl_minutes issued ≡ ok token
      → get_current_user s secret (some token) now
        ≡ ok (record {
          sub = subject;
          role = role;
          mfa_verified = mfa;
          exp = issued + ttl_minutes * 60;
          iat = issued;
        })
  unfolding create_access_token get_current_user decode_token checked_type payload_of
  get_current_user-access subject role token mfa ttl_minutes issued now trips begun live h =
      let (key, keyed, made) = bind-ok (secret_of secret) h in
      rw (keyed, sym (ok-injective made), trips key now keyed begun live) refl
