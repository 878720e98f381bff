-- ===== src/Jwt.antt =====
-- shared/py-common/sc_tpcrs_common/jwt_shared.py: claims, tokens, and the guards of the routes.
-- Signing and checking a signature is PyJWT's, and comes as two functions.
pub mod Guards
mod Tests
use sc_tpcrs.Prelude.{
  ℕ, ◌+◌, ◌*◌, String, ◌≡◌, Bool, true, false, not, Option, none, some, List, [], ◌∷◌, ◌==◌, one_of,
  Result, ok, err, Error, ◌>>=◌, ◌>>◌, raise_if, or_raise, fstring, if◌then◌else◌,
}

-- The claims of a token: `role` and `mfa_verified` may be missing.
pub record Claims : Type 0 where
  pub sub : String
  pub role : Option String
  pub mfa_verified : Option Bool
  pub iat : ℕ
  pub exp : ℕ
  pub token_type : String

pub record TokenPayload : Type 0 where
  pub sub : String
  pub role : String
  pub mfa_verified : Bool
  pub exp : ℕ
  pub iat : ℕ

-- What `jwt.decode` may do.
pub data Decoded : Type 0 where
  claims : Claims → Decoded
  expired : Decoded
  invalid : Decoded

-- `jwt.encode` with the algorithm HS256, and `jwt.decode` at a time.
pub record Signing : Type 0 where
  pub encode : Claims → String → String
  pub decode : String → String → ℕ → Decoded

-- `JWT_SECRET` of the environment, if it is set.
abbrev pub Secret : Type 0
Secret = Option String

unfoldable pub secret_of : Secret → Result String
secret_of none = err (Error.external "JWT_SECRET environment variable is not set")
secret_of (some s) =
    if s == "" then err (Error.external "JWT_SECRET environment variable is not set") else ok s

-- `claims["role"]` of a token without one is a `KeyError`.
unfoldable pub payload_of : Claims → Result TokenPayload
payload_of c = do
  role ← or_raise c.role (Error.external "KeyError: 'role'")
  ok (record {
    sub = c.sub;
    role = role;
    mfa_verified = elim c.mfa_verified [ none ↦ false | some b ↦ b ];
    exp = c.exp;
    iat = c.iat;
  })

abbrev pub access_claims : String → String → Bool → ℕ → ℕ → Claims
access_claims subject role mfa_verified ttl_minutes now = record {
  sub = subject;
  role = some role;
  mfa_verified = some mfa_verified;
  iat = now;
  exp = now + ttl_minutes * 60;
  token_type = "access";
}

abbrev pub bridge_claims : String → ℕ → ℕ → Claims
bridge_claims subject ttl_seconds now = record {
  sub = subject;
  role = none;
  mfa_verified = none;
  iat = now;
  exp = now + ttl_seconds;
  token_type = "mfa_bridge";
}

-- The checks of `decode_token` on what `jwt.decode` did.
unfoldable pub checked_type : String → Decoded → Result Claims
checked_type expected_type expired = err (Error.http 401 "Token expired")
checked_type expected_type invalid = err (Error.http 401 "Invalid token")
checked_type expected_type (claims c) =
    if not (c.token_type == expected_type) then err (Error.http 401 "Wrong token type") else ok c

module _ (s : Signing) (secret : Secret) where
  unfoldable pub create_access_token : String → String → Bool → ℕ → ℕ → Result String
  create_access_token subject role mfa_verified ttl_minutes now = do
    key ← secret_of secret
    ok (s.encode (access_claims subject role mfa_verified ttl_minutes now) key)

  unfoldable pub create_mfa_bridge_token : String → ℕ → ℕ → Result String
  create_mfa_bridge_token subject ttl_seconds now = do
    key ← secret_of secret
    ok (s.encode (bridge_claims subject ttl_seconds now) key)

  unfoldable pub decode_token : String → String → ℕ → Result Claims
  decode_token token expected_type now = do
    key ← secret_of secret
    checked_type expected_type (s.decode token key now)

  -- The credentials are the token after `Bearer`, if the header has one.
  unfoldable pub get_current_user : Option String → ℕ → Result TokenPayload
  get_current_user credentials now = do
    token ← or_raise credentials (Error.http 401 "Missing bearer token")
    c ← decode_token token "access" now
    payload_of c

-- The check that `require_role(*allowed_roles)` makes of the current user.
unfoldable pub require_role : List String → TokenPayload → Result TokenPayload
require_role allowed_roles user =
    if not (one_of user.role allowed_roles)
    then err (
        Error.http 403
          (fstring ("Role '" ∷ user.role ∷ "' is not permitted to perform this action" ∷ [])))
    else ok user
