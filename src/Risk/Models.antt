-- ===== src/Risk/Models.antt =====
-- services/risk-service/app/models.py. Rows stand in the order in which they were added, so that the newest row is
-- the last.
use sc_tpcrs.Prelude.{ℕ, String, Bool, List}
use sc_tpcrs.Audit.{AuditRow}
use sc_tpcrs.Kafka.{Bus}

-- The six categories, each 0 to 100 with 100 the best.
pub record Scores (F : Type 0) : Type 0 where
  pub questionnaire_score : F
  pub external_posture_score : F
  pub vulnerability_score : F
  pub breach_history_score : F
  pub threat_intel_score : F
  pub compliance_score : F

-- The columns of the categories are those of `inputs_snapshot`.
pub record RiskScoreHistory (F : Type 0) : Type 0 where
  pub id : String
  pub vendor_id : String
  pub vrs_score : F
  pub tier : String
  pub inputs_snapshot : Scores F
  pub computed_at : ℕ

pub record VendorTechStack : Type 0 where
  pub id : String
  pub vendor_id : String
  pub component_name : String
  pub component_version : String
  pub ecosystem : String

pub record AnomalyFlag (F : Type 0) : Type 0 where
  pub id : String
  pub vendor_id : String
  pub detected_at : ℕ
  pub anomaly_score : F
  pub is_anomalous : Bool
  pub feature_snapshot : List (String × F)
  pub model_version : String

pub record Db (F : Type 0) : Type 0 where
  pub scores : List (RiskScoreHistory F)
  pub tech_stack : List VendorTechStack
  pub flags : List (AnomalyFlag F)
  pub audit_log : List AuditRow

pub record World (F : Type 0) : Type 0 where
  pub db : Db F
  pub bus : Bus

-- The time, its text, and the values of `uuid4()`: for a score, for a flag, and for the n-th component.
pub record Call : Type 0 where
  pub now : ℕ
  pub now_text : String
  pub score_id : String
  pub flag_id : String
  pub component_id : ℕ → String
