-- ===== src/Auth/Models.antt =====
-- services/auth-service/app/models.py, schemas.py, config.py and demo_users.py. Rows stand in the order in
-- which they were added.
use sc_tpcrs.Prelude.{ℕ, String, Bool, Option, List, [], ◌∷◌, ◌==◌}
use sc_tpcrs.Prelude.Strings.{lower}
use sc_tpcrs.Audit.{AuditRow}

pub record User : Type 0 where
  pub id : String
  pub email : String
  pub full_name : String
  pub password_hash : String
  pub role : String
  pub mfa_secret_enc : String
  pub mfa_enabled : Bool
  pub is_active : Bool
  pub created_at : ℕ

pub record Db : Type 0 where
  pub users : List User
  pub audit_log : List AuditRow

-- `jwt_secret` is the variable JWT_SECRET of the environment, which jwt_shared.py reads; the other fields are
-- those of config.py.
pub record Settings : Type 0 where
  pub jwt_secret : Option String
  pub jwt_access_ttl_minutes : ℕ
  pub mfa_secret_enc_key : String
  pub env : String

unfoldable pub is_development : Settings → Bool
unfolding lower
is_development settings = lower settings.env == "development"

-- What a call takes from outside: the time, its text, and the values of `uuid4()` for new rows.
pub record Call : Type 0 where
  pub now : ℕ
  pub now_text : String
  pub new_id : ℕ → String

pub record LoginRequest : Type 0 where
  pub email : String
  pub password : String

pub record MfaBridgeResponse : Type 0 where
  pub mfa_bridge_token : String
  pub expires_in : ℕ

pub record MfaVerifyRequest : Type 0 where
  pub mfa_bridge_token : String
  pub otp_code : String

pub record TokenResponse : Type 0 where
  pub access_token : String
  pub role : String
  pub sub : String
  pub expires_in : ℕ

pub record UserOut : Type 0 where
  pub sub : String
  pub role : String
  pub mfa_verified : Bool

pub record DemoUser : Type 0 where
  pub email : String
  pub full_name : String
  pub role : String

abbrev demo : String → String → String → DemoUser
demo email full_name role = record { email = email; full_name = full_name; role = role }

abbrev pub demo_password : String
demo_password = "Demo1234!"

abbrev pub demo_users : List DemoUser
demo_users =
    demo "risk.officer1@sc-tpcrs.demo" "Amaka Okafor" "risk_officer"
    ∷ demo "risk.officer2@sc-tpcrs.demo" "Chinedu Balogun" "risk_officer"
    ∷ demo "compliance1@sc-tpcrs.demo" "Ifeoma Nwosu" "compliance_manager"
    ∷ demo "compliance2@sc-tpcrs.demo" "Tunde Adeyemi" "compliance_manager"
    ∷ demo "ciso1@sc-tpcrs.demo" "Ngozi Eze" "ciso"
    ∷ demo "ciso2@sc-tpcrs.demo" "Segun Adebayo" "ciso"
    ∷ demo "admin1@sc-tpcrs.demo" "Yusuf Bello" "admin"
    ∷ demo "admin2@sc-tpcrs.demo" "Grace Umeh" "admin"
    ∷ []
