-- ===== src/Vendor/Models.antt =====
-- services/vendor-service/app/models.py and the requests of schemas.py. Rows stand in the order in which
-- they were added. A questionnaire holds its responses; the columns that no operation reads (names,
-- contact, contract dates) are kept as one list of columns.
use sc_tpcrs.Prelude.{ℕ, String, Option, List}
use sc_tpcrs.Prelude.Value.{Value, Dict}
use sc_tpcrs.Audit.{AuditRow}
use sc_tpcrs.Kafka.{Bus}

pub record Vendor : Type 0 where
  pub id : String
  pub columns : Dict
  pub data_access_scope : Value
  pub service_criticality : Value
  pub integration_depth : Value
  pub overall_tier : String
  pub onboarding_state : String
  pub created_by : String

pub record QuestionnaireResponse : Type 0 where
  pub domain : String
  pub question_code : String
  pub question_text : String
  pub answer : Option String
  pub score : Option ℕ
  pub answered_at : Option ℕ

pub record Questionnaire : Type 0 where
  pub id : String
  pub vendor_id : String
  pub tier : String
  pub status : String
  pub sent_at : Option ℕ
  pub completed_at : Option ℕ
  pub responses : List QuestionnaireResponse

pub record Db : Type 0 where
  pub vendors : List Vendor
  pub questionnaires : List Questionnaire
  pub audit_log : List AuditRow

pub record World : Type 0 where
  pub db : Db
  pub bus : Bus

-- What a call takes from outside: the time, its text, and the value of `uuid4()` for a new row.
pub record Call : Type 0 where
  pub now : ℕ
  pub now_text : String
  pub new_id : String
