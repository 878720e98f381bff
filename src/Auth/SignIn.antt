-- ===== src/Auth/SignIn.antt =====
-- A sign-in from the password to an access token that the services accept.
use sc_tpcrs.Prelude.{
  ℕ, ◌+◌, ◌*◌, ◌<◌, ◌≤◌, String, ◌≡◌, refl, ◌∙◌, ap, true, none, some, [], ◌∷◌, ◌==◌,
  find_first-passes, str_eq_of, fstring, ok,
}
use sc_tpcrs.Prelude.Distinct.{Distinct}
use sc_tpcrs.Jwt.{
  Signing, secret_of, bridge_claims, access_claims, create_mfa_bridge_token, create_access_token,
  checked_type, decode_token, get_current_user,
}
use sc_tpcrs.Jwt.Guards.{RoundTrips, get_current_user-access}
use sc_tpcrs.Audit.{Hashing}
use sc_tpcrs.Auth.Models.{User, Db, Settings, Call, LoginRequest, MfaBridgeResponse, TokenResponse}
use sc_tpcrs.Auth.Security.{Crypto, verify_password, decrypt_mfa_secret, verify_totp_code}
use sc_tpcrs.Auth.Routes.{get_user_by_email, admitted, audit, login, verify_mfa}
use sc_tpcrs.Auth.Login.{emails, user_of, get_user_by_email-find_first}

module _ (hashing : Hashing) (signing : Signing) (crypto : Crypto) (settings : Settings) where
  -- A user who can sign in: active, found by the address, with the password and a code of the secret.
  pub record CanSignIn (payload : LoginRequest) (otp_code : String) (at : ℕ) (db : Db) (user : User)
      : Type 0 where
    pub raw_secret : String
    pub unique : Distinct (emails db)
    pub found : user_of db payload.email ≡ some user
    pub active : user.is_active ≡ true
    pub password : verify_password crypto payload.password user.password_hash ≡ ok true
    pub decrypted :
        decrypt_mfa_secret crypto settings.mfa_secret_enc_key user.mfa_secret_enc ≡ ok raw_secret
    pub verified : verify_totp_code crypto raw_secret otp_code at ≡ true

  -- The two requests of a sign-in succeed, and the access token gives the user with the second factor
  -- marked.
  pub record SignedIn (first second : Call) (payload : LoginRequest) (otp_code : String) (now : ℕ)
      (db : Db) (user : User) : Type 0 where
    pub bridge : MfaBridgeResponse
    pub between : Db
    pub response : TokenResponse
    pub after : Db
    pub logged_in : login hashing signing crypto settings first payload db ≡ ok (bridge, between)
    pub completed :
        verify_mfa hashing signing crypto settings second
          (record { mfa_bridge_token = bridge.mfa_bridge_token; otp_code = otp_code })
          between
        ≡ ok (response, after)
    pub usable :
        get_current_user signing settings.jwt_secret (some response.access_token) now
        ≡ ok (record {
          sub = user.email;
          role = user.role;
          mfa_verified = true;
          exp = second.now + settings.jwt_access_ttl_minutes * 60;
          iat = second.now;
        })

  -- What the first request answers, and the tables after it.
  abbrev bridge_of : Call → String → User → MfaBridgeResponse
  bridge_of first key user = record {
    mfa_bridge_token = signing.encode (bridge_claims user.email 300 first.now) key;
    expires_in = 300;
  }

  abbrev between_of : Call → Db → User → Db
  between_of first db user =
      audit hashing signing crypto settings first user.email "LOGIN_PASSWORD_OK"
        (fstring ("user:" ∷ user.id ∷ [])) none db

  abbrev response_of : Call → String → User → TokenResponse
  response_of second key user = record {
    access_token =
        signing.encode
          (access_claims user.email user.role true settings.jwt_access_ttl_minutes second.now) key;
    role = user.role;
    sub = user.email;
    expires_in = settings.jwt_access_ttl_minutes * 60;
  }

  abbrev after_of : Call → Db → User → Db
  after_of second db user =
      audit hashing signing crypto settings second user.email "LOGIN_MFA_OK"
        (fstring ("user:" ∷ user.id ∷ [])) none db

  login_succeeds :
      (first : Call) (payload : LoginRequest) (otp_code key : String) (at : ℕ) (db : Db)
      (user : User)
      → secret_of settings.jwt_secret ≡ ok key
      → CanSignIn payload otp_code at db user
      → login hashing signing crypto settings first payload db
        ≡ ok (bridge_of first key user, between_of first db user)
  unfolding login admitted create_mfa_bridge_token
  login_succeeds first payload otp_code key at db user keyed can =
      rw
        (
          get_user_by_email-find_first db payload.email can.unique,
          can.found,
          can.active,
          can.password,
          keyed,
        )
        refl

  verify_mfa_succeeds :
      (first second : Call) (otp_code key raw : String) (db : Db) (user : User)
      → secret_of settings.jwt_secret ≡ ok key
      → RoundTrips signing settings.jwt_secret (bridge_claims user.email 300 first.now)
      → first.now ≤ second.now
      → second.now < first.now + 300
      → get_user_by_email (between_of first db user) user.email ≡ ok (some user)
      → user.is_active ≡ true
      → decrypt_mfa_secret crypto settings.mfa_secret_enc_key user.mfa_secret_enc ≡ ok raw
      → verify_totp_code crypto raw otp_code second.now ≡ true
      → verify_mfa hashing signing crypto settings second
          (record {
            mfa_bridge_token = signing.encode (bridge_claims user.email 300 first.now) key;
            otp_code = otp_code;
          })
          (between_of first db user)
        ≡ ok (response_of second key user, after_of second (between_of first db user) user)
  unfolding verify_mfa admitted create_access_token decode_token checked_type
  verify_mfa_succeeds first second otp_code key raw db user keyed bridged begun early found active
        decrypted verified =
      rw (keyed, bridged key second.now keyed begun early, found, active, decrypted, verified) refl

  -- Who has an active account, the right password and a right code signs in, where addresses are
  -- unique and tokens decode to their claims from their issue until they expire: both requests
  -- succeed if the second comes after the first within 300 seconds, and from then on the access
  -- token gives the user, the role and the second factor marked until its time to live is over.
  pub sign_in_completes :
      (first second : Call) (payload : LoginRequest) (otp_code key : String) (now : ℕ) (db : Db)
      (user : User)
      → secret_of settings.jwt_secret ≡ ok key
      → RoundTrips signing settings.jwt_secret (bridge_claims user.email 300 first.now)
      → RoundTrips signing settings.jwt_secret
          (access_claims user.email user.role true settings.jwt_access_ttl_minutes second.now)
      → CanSignIn payload otp_code second.now db user
      → first.now ≤ second.now
      → second.now < first.now + 300
      → second.now ≤ now
      → now < second.now + settings.jwt_access_ttl_minutes * 60
      → SignedIn first second payload otp_code now db user
  unfolding create_access_token audit
  sign_in_completes first second payload otp_code key now db user keyed bridged accessed can begun
        early used late =
      let same : user.email ≡ payload.email =
        str_eq_of _ _
          (find_first-passes (λ (u : User). u.email == payload.email) db.users user can.found) in
      let found : get_user_by_email (between_of first db user) user.email ≡ ok (some user) =
        get_user_by_email-find_first (between_of first db user) user.email can.unique
        ∙ ap ok (ap (user_of db) same ∙ can.found) in
      record {
        bridge = bridge_of first key user;
        between = between_of first db user;
        response = response_of second key user;
        after = after_of second (between_of first db user) user;
        logged_in = login_succeeds first payload otp_code key second.now db user keyed can;
        completed =
            verify_mfa_succeeds first second otp_code key can.raw_secret db user keyed bridged begun
              early found can.active can.decrypted can.verified;
        usable =
            get_current_user-access signing settings.jwt_secret user.email user.role _ true
              settings.jwt_access_ttl_minutes second.now now accessed used late (rw keyed refl);
      }
