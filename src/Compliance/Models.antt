-- ===== src/Compliance/Models.antt =====
-- services/compliance-service/app/models.py and the requests of schemas.py. Rows stand in the order in which
-- they were added. The status of a control is one of the four of `ControlStatus`.
use sc_tpcrs.Prelude.{ℕ, String, Bool, true, false, List}
use sc_tpcrs.Audit.{AuditRow}
use sc_tpcrs.Kafka.{Bus}

pub data ControlStatus : Type 0 where
  met partial gap not_applicable : ControlStatus

abbrev pub is_met : ControlStatus → Bool
is_met met = true
is_met _ = false

abbrev pub is_partial : ControlStatus → Bool
is_partial partial = true
is_partial _ = false

abbrev pub is_gap : ControlStatus → Bool
is_gap gap = true
is_gap _ = false

abbrev pub is_not_applicable : ControlStatus → Bool
is_not_applicable not_applicable = true
is_not_applicable _ = false

-- `summarise` of the engine, which is stored whole as well.
pub record Summary : Type 0 where
  pub total_controls : ℕ
  pub compliant_count : ℕ
  pub partial_count : ℕ
  pub gap_count : ℕ
  pub not_applicable_count : ℕ
  pub critical_gap_count : ℕ

pub record Assessment (F : Type 0) : Type 0 where
  pub id : String
  pub vendor_id : String
  pub framework : String
  pub compliance_score : F
  pub status : String
  pub total_controls : ℕ
  pub compliant_count : ℕ
  pub partial_count : ℕ
  pub gap_count : ℕ
  pub critical_gap_count : ℕ
  pub framework_scores : List (String × F)
  pub summary : Summary
  pub created_by : String
  pub created_at : ℕ

pub record ControlResult : Type 0 where
  pub id : String
  pub assessment_id : String
  pub vendor_id : String
  pub control_id : String
  pub framework : String
  pub reference : String
  pub domain : String
  pub title : String
  pub weight : ℕ
  pub status : ControlStatus
  pub is_critical_gap : Bool
  pub evidence : String
  pub remediation : String

pub record Db (F : Type 0) : Type 0 where
  pub assessments : List (Assessment F)
  pub control_results : List ControlResult
  pub audit_log : List AuditRow

pub record World (F : Type 0) : Type 0 where
  pub db : Db F
  pub bus : Bus

-- What a call takes from outside: the time, its text, and the values of `uuid4()` for the assessment and for
-- the n-th of its rows.
pub record Call : Type 0 where
  pub now : ℕ
  pub now_text : String
  pub new_id : String
  pub row_id : ℕ → String

-- An override of a control's status by hand; an empty text is falsy.
pub record ControlOverride : Type 0 where
  pub control_id : String
  pub status : ControlStatus
  pub evidence : String
  pub remediation : String

pub record AssessmentRequest : Type 0 where
  pub vendor_id : String
  pub framework : String
  pub overrides : List ControlOverride
