-- ===== src/Jwt/Tests.antt =====
-- Concrete tokens. A token is signed by remembering what the key signs, so there is one token for each.
use sc_tpcrs.Prelude.{◌≡◌, refl, true, some, ok, err, Error, arith}
use sc_tpcrs.Jwt.{
  Claims, TokenPayload, Decoded, claims, invalid, Signing, create_access_token,
  create_mfa_bridge_token, decode_token, get_current_user, access_claims, bridge_claims,
}
use sc_tpcrs.Jwt.Guards.{
  IsAccepted, decode_token-IsAccepted, get_current_user-bridge, get_current_user-access,
}

-- A library that knows the two tokens of a subject.
abbrev decoded_as : Claims → Signing
decoded_as c = record { encode = λ d k. d.token_type; decode = λ t k n. claims c }

decode_token-IsAccepted_example :
    IsAccepted
      (decoded_as (access_claims "ada" "ciso" true 15 0))
      (some "key")
      "t"
      "access"
      10
      (access_claims "ada" "ciso" true 15 0)
unfolding decode_token sc_tpcrs.Jwt.secret_of sc_tpcrs.Jwt.checked_type
decode_token-IsAccepted_example =
    decode_token-IsAccepted (decoded_as (access_claims "ada" "ciso" true 15 0)) (some "key") "t"
      "access" 10 (access_claims "ada" "ciso" true 15 0) refl

abbrev bridge : Signing
bridge = decoded_as (bridge_claims "ada" 300 0)

get_current_user-bridge_example :
    get_current_user bridge (some "key") (some "mfa_bridge") 10
    ≡ err (Error.http 401 "Wrong token type")
unfolding create_mfa_bridge_token sc_tpcrs.Jwt.secret_of
get_current_user-bridge_example =
    get_current_user-bridge bridge (some "key") "ada" "mfa_bridge" 300 0 10 (λ key now k b l. refl)
      (omega arith) (omega arith) refl

abbrev access : Signing
access = decoded_as (access_claims "ada" "ciso" true 15 0)

get_current_user-access_example :
    get_current_user access (some "key") (some "access") 10
    ≡ ok (record { sub = "ada"; role = "ciso"; mfa_verified = true; exp = 900; iat = 0 })
unfolding create_access_token sc_tpcrs.Jwt.secret_of
get_current_user-access_example =
    get_current_user-access access (some "key") "ada" "ciso" "access" true 15 0 10
      (λ key now k b l. refl) (omega arith) (omega arith) refl
