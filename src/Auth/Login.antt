-- ===== src/Auth/Login.antt =====
-- What `login` answers, on every branch.
use sc_tpcrs.Prelude.{
  String, ◌≡◌, refl, subst, inl, inr, true, false, Option, none, some, List, [], ◌∷◌, map, ◌==◌,
  All, select, find_first, Bool-cases, Option-cases, Result-cases, ◌⊎◌, Error, str_eq_of, fstring,
  Result, ok, err,
}
use sc_tpcrs.Prelude.Distinct.{Distinct, select-fresh}
use sc_tpcrs.Jwt.{Signing, secret_of, bridge_claims, create_mfa_bridge_token}
use sc_tpcrs.Audit.{Hashing}
use sc_tpcrs.Auth.Models.{User, Db, Settings, Call, LoginRequest, MfaBridgeResponse}
use sc_tpcrs.Auth.Security.{Crypto, verify_password}
use sc_tpcrs.Auth.Routes.{
  scalar_one_or_none, get_user_by_email, invalid_login, admitted, audit, login,
  mfa_bridge_ttl_seconds,
}

abbrev pub emails : Db → List String
emails db = map (λ (u : User). u.email) db.users

abbrev pub user_of : Db → String → Option User
user_of db email = find_first (λ (u : User). u.email == email) db.users

scalar_one_or_none-select :
    (email : String) (us : List User)
    → Distinct (map (λ (u : User). u.email) us)
    → scalar_one_or_none (select (λ (u : User). u.email == email) us)
      ≡ ok (find_first (λ (u : User). u.email == email) us)
unfolding scalar_one_or_none
scalar_one_or_none-select email [] d = refl
scalar_one_or_none-select email (u ∷ us) d = elim (Bool-cases (u.email == email)) [
  | inl hit ↦
      let rest : All (λ y. (email == y) ≡ false) (map (λ (u : User). u.email) us) =
        subst (λ k. All (λ y. (k == y) ≡ false) (map (λ (u : User). u.email) us))
          (str_eq_of _ _ hit) d.0 in
      rw (hit, select-fresh (λ (u : User). u.email) email us rest) refl
  | inr miss ↦ rw miss (scalar_one_or_none-select email us d.1)
]

-- Where addresses are unique, the query finds the one user that has the address.
pub get_user_by_email-find_first :
    (db : Db) (email : String)
    → Distinct (emails db)
    → get_user_by_email db email ≡ ok (user_of db email)
unfolding get_user_by_email
get_user_by_email-find_first db email d = scalar_one_or_none-select email db.users d

same : {o : Option User} (u v : User) → o ≡ some u → o ≡ some v → v ≡ u
same u v p q = cc (p, q)

module _ (hashing : Hashing) (signing : Signing) (crypto : Crypto) (settings : Settings) where
  -- The answers: a bridge token of the user for an active user and the right password, one and the same refusal
  -- whatever was wrong, and the error of a password that cannot be verified.
  pub data LoginOutcome (call : Call) (payload : LoginRequest) (db : Db) (key : String)
      : Result (MfaBridgeResponse × Db) → Type 0 where
    accepted :
        {r : Result (MfaBridgeResponse × Db)} (u : User)
        → user_of db payload.email ≡ some u
        → u.is_active ≡ true
        → verify_password crypto payload.password u.password_hash ≡ ok true
        → r
          ≡ ok (
            record {
              mfa_bridge_token =
                  signing.encode (bridge_claims u.email mfa_bridge_ttl_seconds call.now) key;
              expires_in = mfa_bridge_ttl_seconds;
            },
            audit hashing signing crypto settings call u.email "LOGIN_PASSWORD_OK"
                (fstring ("user:" ∷ u.id ∷ []))
                none
                db,
          )
        → LoginOutcome call payload db key r
    refused :
        {r : Result (MfaBridgeResponse × Db)}
        → ((u : User)
            → user_of db payload.email ≡ some u
            → (u.is_active ≡ false)
              ⊎ (verify_password crypto payload.password u.password_hash ≡ ok false))
        → r ≡ err invalid_login
        → LoginOutcome call payload db key r
    raised :
        {r : Result (MfaBridgeResponse × Db)} (u : User) (e : Error)
        → user_of db payload.email ≡ some u
        → u.is_active ≡ true
        → verify_password crypto payload.password u.password_hash ≡ err e
        → r ≡ err e
        → LoginOutcome call payload db key r

  -- Where addresses are unique and the secret is set, a login has one of three answers: a bridge
  -- token of the user, with a row in the audit table, for an active user and the right password;
  -- the error of the password library, for an active user and a password that it cannot take; and
  -- otherwise one and the same refusal, whatever was wrong.
  pub login_outcome :
      (call : Call) (payload : LoginRequest) (db : Db) (key : String)
      → Distinct (emails db)
      → secret_of settings.jwt_secret ≡ ok key
      → LoginOutcome call payload db key (login hashing signing crypto settings call payload db)
  unfolding login admitted create_mfa_bridge_token
  login_outcome call payload db key d keyed =
      rw (get_user_by_email-find_first db payload.email d)
        (elim (Option-cases (user_of db payload.email)) [
          | inl missing ↦ refused (λ u e. cc (e, missing)) (rw missing refl)
          | inr (u, found) ↦ elim (Bool-cases u.is_active) [
            | inl active ↦
                elim (Result-cases (verify_password crypto payload.password u.password_hash)) [
                  | inl (e, fails) ↦ raised u e found active fails (rw (found, active, fails) refl)
                  | inr (true, right) ↦
                      accepted u found active right (rw (found, active, right, keyed) refl)
                  | inr (false, wrong) ↦
                      refused (λ v e. rw (same u v found e) (inr wrong))
                        (rw (found, active, wrong) refl)
                ]
            | inr inactive ↦
                refused (λ v e. rw (same u v found e) (inl inactive)) (rw (found, inactive) refl)
          ]
        ])
