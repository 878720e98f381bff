-- ===== src/Monitoring/Engine.antt =====
-- services/monitoring-service/app/services/alert_engine.py.
pub mod Rules
pub use Rules.{sensitive_services, AlertSpec}
unfoldable pub use Rules.{
  severity_rank, new_sensitive, drift_severity, drift_specs, evaluate_snapshot, int_or_zero,
  alert_from_event,
}
use sc_tpcrs.Prelude.{
  ℕ, ◌+◌, String, Bool, true, false, not, ◌&&◌, ◌||◌, Option, none, some, List, [], ◌∷◌, ◌++◌, map,
  ◌==◌, leb, ltb, length, select, last?, update_where, one_of, fstring, decimal, contains_text,
  starts_with, ends_with, or_else, Result, ok, Error, ◌>>=◌, or_raise, if◌then◌else◌,
}
use sc_tpcrs.Prelude.Value.{
  Value, null, boolean, integer, real, str, Dict, Details, Detail, get_or, truthy, to_text, is_text,
  as_details,
}
use sc_tpcrs.Kafka.{Event}
use sc_tpcrs.Prelude.Floats.{Floats}
use sc_tpcrs.Monitoring.Models.{Alert, Db, Env}
use sc_tpcrs.Monitoring.Posture.{PostureReading}

-- The alert is not resolved and has the vendor and the key.
abbrev pub is_active : String → String → Alert → Bool
is_active vendor_id dedup_key a =
    a.vendor_id == vendor_id && (a.dedup_key == dedup_key && not (a.status == "resolved"))

-- What a repeated finding does to the alert's row.
unfoldable pub bump : AlertSpec → ℕ → Alert → Alert
bump spec now existing =
    let worse = ltb (severity_rank existing.severity) (severity_rank spec.severity) in
    record existing {
      occurrence_count = existing.occurrence_count + 1;
      last_seen_at = now;
      severity = if worse then spec.severity else existing.severity;
      title = if worse then spec.title else existing.title;
      details = spec.details;
      published = false;
    }

unfoldable pub new_alert : String → String → AlertSpec → ℕ → Alert
new_alert id vendor_uuid spec now = record {
  id = id;
  vendor_id = vendor_uuid;
  alert_type = spec.alert_type;
  severity = spec.severity;
  title = spec.title;
  description = spec.description;
  dedup_key = spec.dedup_key;
  status = "open";
  source = spec.source;
  details = spec.details;
  occurrence_count = 1;
  first_seen_at = now;
  last_seen_at = now;
  acknowledged_by = none;
  acknowledged_at = none;
  resolved_at = none;
  published = false;
}

-- The newest active alert: rows stand in the order of `first_seen_at`.
unfoldable pub existing_alert : {F : Type 0} → String → String → Db F → Option Alert
existing_alert vendor_id dedup_key db = last? (select (is_active vendor_id dedup_key) db.alerts)

-- Returns the alert as it is then, whether it is new, and the tables.
unfoldable pub upsert_alert :
    {F : Type 0} → Env → ℕ → AlertSpec → Db F → Result (Alert × Bool × Db F)
upsert_alert env now spec db = do
  vendor_uuid ← or_raise (env.parse_uuid spec.vendor_id) (Error.value_error "badly formed UUID")
  elim (existing_alert vendor_uuid spec.dedup_key db) [
    | some existing ↦ ok (
      bump spec now existing,
      false,
      record db {
        alerts = update_where (λ (a : Alert). a.id == existing.id) (bump spec now) db.alerts;
      },
    )
    | none ↦
        let alert = new_alert (env.uuid4 (length db.alerts)) vendor_uuid spec now in
        ok (alert, true, record db { alerts = db.alerts ++ alert ∷ [] })
  ]
