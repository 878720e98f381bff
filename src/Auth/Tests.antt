-- ===== src/Auth/Tests.antt =====
-- Concrete runs of auth-service. Tokens are signed by naming their type, and a code is its secret.
use sc_tpcrs.Prelude.{refl, true, some, [], ◌∷◌, ◌==◌, arith}
use sc_tpcrs.Jwt.{Claims, Decoded, claims, Signing, bridge_claims, access_claims}
use sc_tpcrs.Audit.{Hashing}
use sc_tpcrs.Auth.Models.{User, Db, Settings, is_development, Call, LoginRequest, MfaVerifyRequest}
use sc_tpcrs.Auth.Security.{Crypto, verify_password, decrypt_mfa_secret, verify_totp_code}
use sc_tpcrs.Auth.Routes.{login, verify_mfa, dev_seed_users}
use sc_tpcrs.Auth.Login.{LoginOutcome, login_outcome}
use sc_tpcrs.Auth.Session.{IsVerified, verify_mfa-IsVerified}
use sc_tpcrs.Auth.SignIn.{CanSignIn, SignedIn, sign_in_completes}
use sc_tpcrs.Auth.Seeding.{SeedsOnce, dev_seed_users_idempotent}

abbrev hashing : Hashing
hashing = record { sha256_hex = λ s. s; json_dumps = λ e. e.action }

abbrev bridge : Claims
bridge = bridge_claims "ada@bank" 300 100

abbrev access : Claims
access = access_claims "ada@bank" "ciso" true 15 130

-- A library that knows the two tokens of the run.
abbrev signing : Signing
signing = record {
  encode = λ c k. c.token_type;
  decode = λ t k n. elim (t == "access") [ true ↦ claims access | _ ↦ claims bridge ];
}

abbrev crypto : Crypto
crypto = record {
  bcrypt_hash = λ salt p. p;
  bcrypt_verify = λ p h. some (p == h);
  sha256_base64 = λ s. s;
  fernet_encrypt = λ k n t. t;
  fernet_decrypt = λ k t. some t;
  totp_now = λ s n. s;
  totp_verify = λ s c n w. s == c;
  randrange = λ a b n i. i;
  b32encode = λ b. "ABC=";
}

abbrev settings : Settings
settings = record {
  jwt_secret = some "key";
  jwt_access_ttl_minutes = 15;
  mfa_secret_enc_key = "fernet";
  env = "Development";
}

abbrev ada : User
ada = record {
  id = "u0";
  email = "ada@bank";
  full_name = "Ada";
  password_hash = "pass";
  role = "ciso";
  mfa_secret_enc = "123456";
  mfa_enabled = true;
  is_active = true;
  created_at = 1;
}

abbrev db : Db
db = record { users = ada ∷ []; audit_log = [] }

abbrev first : Call
first = record { now = 100; now_text = "t100"; new_id = λ n. "u" }

abbrev second : Call
second = record { now = 130; now_text = "t130"; new_id = λ n. "u" }

abbrev request : LoginRequest
request = record { email = "ada@bank"; password = "pass" }

login_outcome_example :
    LoginOutcome hashing signing crypto settings first request db "key"
      (login hashing signing crypto settings first request db)
unfolding sc_tpcrs.Jwt.secret_of
login_outcome_example =
    login_outcome hashing signing crypto settings first request db "key" (tt, tt) refl

abbrev code : MfaVerifyRequest
code = record { mfa_bridge_token = "mfa_bridge"; otp_code = "123456" }

verify_mfa-IsVerified_example :
    IsVerified hashing signing crypto settings second code db
      (record { access_token = "access"; role = "ciso"; sub = "ada@bank"; expires_in = 900 })
unfolding verify_mfa sc_tpcrs.Jwt.decode_token sc_tpcrs.Jwt.secret_of sc_tpcrs.Jwt.checked_type
    sc_tpcrs.Auth.Routes.get_user_by_email sc_tpcrs.Auth.Routes.scalar_one_or_none
    sc_tpcrs.Auth.Routes.admitted decrypt_mfa_secret verify_totp_code
    sc_tpcrs.Jwt.create_access_token
verify_mfa-IsVerified_example =
    verify_mfa-IsVerified hashing signing crypto settings second code db _ _ refl

ada-CanSignIn : CanSignIn hashing signing crypto settings request "123456" 130 db ada
unfolding verify_password decrypt_mfa_secret verify_totp_code
ada-CanSignIn = record {
  raw_secret = "123456";
  unique = (tt, tt);
  found = refl;
  active = refl;
  password = refl;
  decrypted = refl;
  verified = refl;
}

sign_in_completes_example :
    SignedIn hashing signing crypto settings first second request "123456" 500 db ada
unfolding sc_tpcrs.Jwt.secret_of
sign_in_completes_example =
    sign_in_completes hashing signing crypto settings first second request "123456" "key" 500 db ada
      refl (λ key now k b l. refl) (λ key now k b l. refl) ada-CanSignIn (omega arith) (omega arith)
      (omega arith) (omega arith)

dev_seed_users_idempotent_example : SeedsOnce hashing signing crypto settings first second db
unfolding is_development
dev_seed_users_idempotent_example =
    dev_seed_users_idempotent hashing signing crypto settings first second db refl (tt, tt)
