-- ===== src/Auth/Session.antt =====
-- A sign-in from the password to an access token, and what `verify_mfa` requires.
use sc_tpcrs.Prelude.{
  String, ◌>>=◌, Result, ◌≡◌, refl, ◌∙◌, sym, ap, subst, Bool, true, false, not, Option, none, some,
  raise_if, if◌then◌else◌, ok, err, Error, bind-ok, ok-injective, raise_if-ok,
}
use sc_tpcrs.Jwt.{Claims, Signing, create_access_token, decode_token}
use sc_tpcrs.Jwt.Guards.{IsAccepted, decode_token-IsAccepted}
use sc_tpcrs.Audit.{Hashing}
use sc_tpcrs.Auth.Models.{User, Db, Settings, Call, MfaVerifyRequest, TokenResponse}
use sc_tpcrs.Auth.Security.{Crypto, decrypt_mfa_secret, verify_totp_code}
use sc_tpcrs.Auth.Routes.{get_user_by_email, admitted, verify_mfa}

admitted-ok :
    (found : Option User) (passes : User → Result Bool) (e : Error) (user : User)
    → admitted found passes e ≡ ok user
    → (found ≡ some user) × (user.is_active ≡ true)
unfolding admitted
admitted-ok none passes e user h = cc
admitted-ok (some u) passes e user h =
    let (same, active) = let_in u.is_active refl h in
    (ap some same, subst (λ (x : User). x.is_active ≡ true) same active)
  where
    entered : (passed : Bool) → (if passed then ok u else err e) ≡ ok user → u ≡ user
    entered true t = ok-injective t
    entered false t = cc

    let_in :
        (active : Bool)
        → u.is_active ≡ active
        → (if not active then err e else (passes u >>= λ passed. if passed then ok u else err e))
          ≡ ok user
        → (u ≡ user) × (u.is_active ≡ true)
    let_in true a t = let (passed, tested, done) = bind-ok (passes u) t in (entered passed done, a)
    let_in false a t = cc

not-false : (b : Bool) → not b ≡ false → b ≡ true
not-false true h = refl
not-false false h = cc

module _ (hashing : Hashing) (signing : Signing) (crypto : Crypto) (settings : Settings) where
  -- Both factors: a bridge token that was accepted names an active user, and the code is one of that
  -- user's secret.
  pub record IsVerified (call : Call) (payload : MfaVerifyRequest) (db : Db) (r : TokenResponse)
      : Type 0 where
    pub bridge : Claims
    pub user : User
    pub raw_secret : String
    pub accepted :
        IsAccepted signing settings.jwt_secret payload.mfa_bridge_token "mfa_bridge" call.now bridge
    pub found : get_user_by_email db bridge.sub ≡ ok (some user)
    pub active : user.is_active ≡ true
    pub decrypted :
        decrypt_mfa_secret crypto settings.mfa_secret_enc_key user.mfa_secret_enc ≡ ok raw_secret
    pub verified : verify_totp_code crypto raw_secret payload.otp_code call.now ≡ true
    pub issued :
        create_access_token signing settings.jwt_secret user.email user.role true
          settings.jwt_access_ttl_minutes call.now
        ≡ ok r.access_token
    pub named : (r.sub ≡ user.email) × (r.role ≡ user.role)

  -- An access token is issued only to an active user whom an accepted bridge token names and whose
  -- decrypted secret verifies the code that was sent; it is made for that user's address and role,
  -- with the second factor marked.
  pub verify_mfa-IsVerified :
      (call : Call) (payload : MfaVerifyRequest) (db db' : Db) (r : TokenResponse)
      → verify_mfa hashing signing crypto settings call payload db ≡ ok (r, db')
      → IsVerified call payload db r
  unfolding verify_mfa
  verify_mfa-IsVerified call payload db db' r h =
      let (bridge, decoded, h1) =
        bind-ok
          (decode_token signing settings.jwt_secret payload.mfa_bridge_token "mfa_bridge" call.now)
          h in
      let (found, queried, h2) = bind-ok (get_user_by_email db bridge.sub) h1 in
      let (user, entered, h3) =
        bind-ok (admitted found (λ u. ok true) (Error.http 401 "Invalid session")) h2 in
      let (raw, decrypted, h4) =
        bind-ok (decrypt_mfa_secret crypto settings.mfa_secret_enc_key user.mfa_secret_enc) h3 in
      let (passed, checked, h5) =
        bind-ok
          (raise_if (not (verify_totp_code crypto raw payload.otp_code call.now))
            (Error.http 401 "Invalid MFA code"))
          h4 in
      let (token, issued, h6) =
        bind-ok
          (create_access_token signing settings.jwt_secret user.email user.role true
            settings.jwt_access_ttl_minutes call.now)
          h5 in
      let enters = admitted-ok found _ _ user entered in
      record {
        bridge = bridge;
        user = user;
        raw_secret = raw;
        accepted =
            decode_token-IsAccepted signing settings.jwt_secret payload.mfa_bridge_token
              "mfa_bridge" call.now bridge decoded;
        found = rw queried (ap ok enters.0);
        active = enters.1;
        decrypted = decrypted;
        verified = not-false _ (raise_if-ok _ _ checked);
        issued =
            issued ∙ ap (λ (p : TokenResponse × Db). ok ((p.0).access_token)) (ok-injective h6);
        named = (
          sym (ap (λ (p : TokenResponse × Db). (p.0).sub) (ok-injective h6)),
          sym (ap (λ (p : TokenResponse × Db). (p.0).role) (ok-injective h6)),
        );
      }
