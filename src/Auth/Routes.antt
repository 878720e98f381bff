-- ===== src/Auth/Routes.antt =====
-- services/auth-service/app/routers/auth.py. The column of email addresses is unique, and a query for one
-- row that finds several raises.
use sc_tpcrs.Prelude.{
  ℕ, ◌*◌, String, Bool, true, not, Option, none, some, List, [], ◌∷◌, ◌++◌, ◌==◌, length, select,
  fstring, Result, ok, err, Error, ◌>>=◌, ◌>>◌, raise_if, or_raise, if◌then◌else◌,
}
use sc_tpcrs.Prelude.Value.{Details, Detail}
use sc_tpcrs.Jwt.{TokenPayload, Signing, create_access_token, create_mfa_bridge_token, decode_token}
use sc_tpcrs.Audit.{Hashing, record_audit_event}
use sc_tpcrs.Auth.Models.{
  User, Db, Settings, is_development, Call, LoginRequest, MfaBridgeResponse, MfaVerifyRequest,
  TokenResponse, UserOut, DemoUser, demo_password, demo_users,
}
use sc_tpcrs.Auth.Security.{
  Crypto, hash_password, verify_password, deterministic_totp_secret, encrypt_mfa_secret,
  decrypt_mfa_secret, current_totp_code, verify_totp_code,
}

abbrev pub mfa_bridge_ttl_seconds : ℕ
mfa_bridge_ttl_seconds = 300

-- `result.scalar_one_or_none()`.
unfoldable pub scalar_one_or_none : List User → Result (Option User)
scalar_one_or_none [] = ok none
scalar_one_or_none (u ∷ []) = ok (some u)
scalar_one_or_none (u ∷ v ∷ us) = err (Error.external "MultipleResultsFound")

unfoldable pub get_user_by_email : Db → String → Result (Option User)
get_user_by_email db email = scalar_one_or_none (select (λ (u : User). u.email == email) db.users)

abbrev pub invalid_login : Error
invalid_login = Error.http 401 "Invalid email or password"

-- `user` if it is there, is active, and passes the test, which is made last and may raise.
unfoldable pub admitted : Option User → (User → Result Bool) → Error → Result User
admitted none passes e = err e
admitted (some user) passes e =
    if not user.is_active
    then err e
    else (passes user >>= λ passed. if passed then ok user else err e)

pub record SeedResult : Type 0 where
  pub created : List String
  pub already_existed : List String
  pub password : String

module _ (hashing : Hashing) (signing : Signing) (crypto : Crypto) (settings : Settings) where
  unfoldable pub audit : Call → String → String → String → Option Details → Db → Db
  audit call actor action resource details db = record db {
    audit_log = record_audit_event hashing actor action resource details call.now_text db.audit_log;
  }

  unfoldable pub login : Call → LoginRequest → Db → Result (MfaBridgeResponse × Db)
  unfolding audit
  login call payload db = do
    found ← get_user_by_email db payload.email
    user ←
        admitted found (λ u. verify_password crypto payload.password u.password_hash) invalid_login
    token ←
        create_mfa_bridge_token signing settings.jwt_secret user.email mfa_bridge_ttl_seconds
          call.now
    ok (
      record { mfa_bridge_token = token; expires_in = mfa_bridge_ttl_seconds },
      audit call user.email "LOGIN_PASSWORD_OK" (fstring ("user:" ∷ user.id ∷ [])) none db,
    )

  unfoldable pub verify_mfa : Call → MfaVerifyRequest → Db → Result (TokenResponse × Db)
  unfolding audit
  verify_mfa call payload db = do
    claims ← decode_token signing settings.jwt_secret payload.mfa_bridge_token "mfa_bridge" call.now
    found ← get_user_by_email db claims.sub
    user ← admitted found (λ u. ok true) (Error.http 401 "Invalid session")
    raw_secret ← decrypt_mfa_secret crypto settings.mfa_secret_enc_key user.mfa_secret_enc
    raise_if (not (verify_totp_code crypto raw_secret payload.otp_code call.now))
        (Error.http 401 "Invalid MFA code")
    let ttl_minutes = settings.jwt_access_ttl_minutes
    access_token ←
        create_access_token signing settings.jwt_secret user.email user.role true ttl_minutes
          call.now
    ok (
      record {
        access_token = access_token;
        role = user.role;
        sub = user.email;
        expires_in = ttl_minutes * 60;
      },
      audit call user.email "LOGIN_MFA_OK" (fstring ("user:" ∷ user.id ∷ [])) none db,
    )

  unfoldable pub me : TokenPayload → UserOut
  me current = record {
    sub = current.sub;
    role = current.role;
    mfa_verified = current.mfa_verified;
  }

  -- The code that the answer holds beside the address.
  unfoldable pub dev_mfa_code : Call → String → Db → Result String
  unfolding is_development
  dev_mfa_code call email db = do
    raise_if (not (is_development settings)) (Error.http 404 "Not found")
    found ← get_user_by_email db email
    user ← or_raise found (Error.http 404 "User not found")
    raw_secret ← decrypt_mfa_secret crypto settings.mfa_secret_enc_key user.mfa_secret_enc
    ok (current_totp_code crypto raw_secret call.now)

  -- The row of a demo user, the n-th of the table.
  unfoldable pub demo_row : Call → DemoUser → ℕ → User
  demo_row call demo n = record {
    id = call.new_id n;
    email = demo.email;
    full_name = demo.full_name;
    password_hash = hash_password crypto n demo_password;
    role = demo.role;
    mfa_secret_enc =
        encrypt_mfa_secret crypto settings.mfa_secret_enc_key n
          (deterministic_totp_secret crypto demo.email);
    mfa_enabled = true;
    is_active = true;
    created_at = call.now;
  }

  -- One round of the loop of `dev_seed_users`: the address is created or exists already.
  unfoldable pub seed_user : Call → DemoUser → SeedResult × Db → Option User → SeedResult × Db
  seed_user call demo (r, db) (some user) =
      (record r { already_existed = r.already_existed ++ demo.email ∷ [] }, db)
  seed_user call demo (r, db) none = (
    record r { created = r.created ++ demo.email ∷ [] },
    record db { users = db.users ++ demo_row call demo (length db.users) ∷ [] },
  )

  unfoldable pub seed_all : Call → List DemoUser → SeedResult × Db → Result (SeedResult × Db)
  seed_all call [] s = ok s
  seed_all call (demo ∷ demos) s = do
    user ← get_user_by_email s.1 demo.email
    seed_all call demos (seed_user call demo s user)

  unfoldable pub seed_audit : Call → List String → Db → Db
  unfolding audit
  seed_audit call [] db = db
  seed_audit call (email ∷ emails) db =
      audit call "system:seed" "SEED_DEMO_USERS" "users"
        (some (("created", Detail.texts (email ∷ emails)) ∷ [])) db

  unfoldable pub dev_seed_users : Call → Db → Result (SeedResult × Db)
  unfolding is_development
  dev_seed_users call db = do
    raise_if (not (is_development settings)) (Error.http 404 "Not found")
    s ←
        seed_all call demo_users
          (record { created = []; already_existed = []; password = demo_password }, db)
    ok (s.0, seed_audit call (s.0).created s.1)
