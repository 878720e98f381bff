-- ===== src/Monitoring/Models.antt =====
-- services/monitoring-service/app/models.py. Rows stand in the order in which they were added; a column
-- that the database fills by itself is left out. Floats are the type of
-- the section's `Floats`.
use sc_tpcrs.Prelude.{ℕ, String, Bool, Option, List}
use sc_tpcrs.Prelude.Value.{Details}
use sc_tpcrs.Audit.{AuditRow, Hashing, record_audit_event}
use sc_tpcrs.Kafka.{Bus}

pub record Alert : Type 0 where
  pub id : String
  pub vendor_id : String
  pub alert_type : String
  pub severity : String
  pub title : String
  pub description : String
  pub dedup_key : String
  pub status : String
  pub source : String
  pub details : Details
  pub occurrence_count : ℕ
  pub first_seen_at : ℕ
  pub last_seen_at : ℕ
  pub acknowledged_by : Option String
  pub acknowledged_at : Option ℕ
  pub resolved_at : Option ℕ
  pub published : Bool

-- `raw` is kept as the list of open services and the probe, which is what the code reads of it.
pub record Snapshot (F : Type 0) : Type 0 where
  pub vendor_id : String
  pub posture_score : F
  pub open_service_count : ℕ
  pub ioc_match_count : ℕ
  pub abuse_report_count : ℕ
  pub exposure_index : F
  pub drift : F
  pub open_services : List String
  pub drift_probe : ℕ
  pub observed_at : ℕ

pub record Db (F : Type 0) : Type 0 where
  pub snapshots : List (Snapshot F)
  pub alerts : List Alert
  pub audit_log : List AuditRow

pub record World (F : Type 0) : Type 0 where
  pub db : Db F
  pub bus : Bus

-- What the service takes from outside: hashing, `uuid.UUID` (none if it raises `ValueError`), the value
-- of `uuid4()` for the n-th alert row, `int` of a text or of a float's repr, and `str.upper`.
pub record Env : Type 0 where
  pub hashing : Hashing
  pub parse_uuid : String → Option String
  pub uuid4 : ℕ → String
  pub parse_int : String → Option ℕ
  pub upper : String → String

unfoldable pub audit :
    {F : Type 0} → Env → String → String → String → Option Details → String → Db F → Db F
audit env actor action resource details now_text db = record db {
  audit_log = record_audit_event env.hashing actor action resource details now_text db.audit_log;
}
