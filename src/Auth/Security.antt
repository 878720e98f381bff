-- ===== src/Auth/Security.antt =====
-- services/auth-service/app/security.py: password hashes, encrypted secrets of second factors, and one-time
-- codes. bcrypt, SHA-256 with base64, Fernet, pyotp and the seeded random numbers come from outside.
use sc_tpcrs.Prelude.{
  ℕ, zero, suc, ◌+◌, String, Bool, Option, List, [], ◌∷◌, nat_eq, Result, Error, or_raise,
  if◌then◌else◌,
}
use Prim.Native.Char.{code}
use sc_tpcrs.Prelude.{◌&&◌, ◌==◌}

-- A hash has a fresh salt and a ciphertext a fresh nonce, which are given by number.
pub record Crypto : Type 0 where
  pub bcrypt_hash : ℕ → String → String
  pub bcrypt_verify : String → String → Option Bool
  pub sha256_base64 : String → String
  pub fernet_encrypt : String → ℕ → String → String
  pub fernet_decrypt : String → String → Option String
  pub totp_now : String → ℕ → String
  pub totp_verify : String → String → ℕ → ℕ → Bool
  pub randrange : String → String → ℕ → ℕ → ℕ
  pub b32encode : List ℕ → String

-- `s.rstrip("=")`.
rstrip_equals : String → String
rstrip_equals String.[] = ""
rstrip_equals (String.◌∷◌ c s) =
    let rest = rstrip_equals s in
    if nat_eq (code c) b'=' && rest == "" then "" else String.◌∷◌ c rest

-- `f(i) for i in range(n)` from `i` on.
drawn_from : (ℕ → ℕ) → ℕ → ℕ → List ℕ
drawn_from f i zero = []
drawn_from f i (suc n) = f i ∷ drawn_from f (i + 1) n

module _ (crypto : Crypto) where
  unfoldable pub hash_password : ℕ → String → String
  hash_password salt plain = crypto.bcrypt_hash salt plain

  -- passlib refuses a password with a NUL byte and one that is too long.
  unfoldable pub verify_password : String → String → Result Bool
  verify_password plain hashed =
      or_raise (crypto.bcrypt_verify plain hashed) (Error.value_error "password")

  unfoldable pub fernet_key_from_secret : String → String
  fernet_key_from_secret secret = crypto.sha256_base64 secret

  -- The numbers that the generator seeded with the identifier gives below 256.
  unfoldable pub deterministic_totp_secret : String → String
  unfolding rstrip_equals drawn_from
  deterministic_totp_secret identifier =
      rstrip_equals
        (crypto.b32encode (drawn_from (crypto.randrange "mfa-secret" identifier 256) 0 20))

  unfoldable pub encrypt_mfa_secret : String → ℕ → String → String
  unfolding fernet_key_from_secret
  encrypt_mfa_secret key nonce raw_secret =
      crypto.fernet_encrypt (fernet_key_from_secret key) nonce raw_secret

  unfoldable pub decrypt_mfa_secret : String → String → Result String
  unfolding fernet_key_from_secret
  decrypt_mfa_secret key enc_secret =
      or_raise (crypto.fernet_decrypt (fernet_key_from_secret key) enc_secret)
        (Error.external "InvalidToken")

  unfoldable pub current_totp_code : String → ℕ → String
  current_totp_code raw_secret now = crypto.totp_now raw_secret now

  unfoldable pub verify_totp_code : String → String → ℕ → Bool
  verify_totp_code raw_secret otp_code now = crypto.totp_verify raw_secret otp_code now 1
