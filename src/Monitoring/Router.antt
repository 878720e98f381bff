-- ===== src/Monitoring/Router.antt =====
-- services/monitoring-service/app/routers/alerts.py, and the read helpers of sweep_service.py that it
-- calls. The order of a list and its limit are the database's, and are not modelled.
use sc_tpcrs.Prelude.{
  ℕ, String, Bool, true, ◌&&◌, not, Option, none, some, List, [], ◌∷◌, ◌==◌, select, find_first,
  count_where, update_where, fstring, Result, ok, Error, ◌>>=◌, ◌>>◌, raise_if, or_raise,
}
use sc_tpcrs.Prelude.Value.{str, Detail}
use sc_tpcrs.Jwt.{TokenPayload, require_role}
use sc_tpcrs.Monitoring.Models.{Alert, Db, Env, audit}
use sc_tpcrs.Monitoring.Events.{Clock}

abbrev pub writers : List String
writers = "risk_officer" ∷ "ciso" ∷ "admin" ∷ []

abbrev pub not_found : Error
not_found = Error.http 404 "alert not found"

abbrev matches : Option String → String → Bool
matches none s = true
matches (some wanted) s = s == wanted

unfoldable pub acknowledged : String → ℕ → Alert → Alert
acknowledged sub now alert = record alert {
  status = "acknowledged";
  acknowledged_by = some sub;
  acknowledged_at = some now;
}

unfoldable pub resolved : ℕ → Alert → Alert
resolved now alert = record alert { status = "resolved"; resolved_at = some now }

module _ {F : Type 0} where
  unfoldable pub get_alert : String → Db F → Option Alert
  get_alert alert_id db = find_first (λ (a : Alert). a.id == alert_id) db.alerts

  unfoldable pub list_alerts : Option String → Option String → Option String → Db F → List Alert
  list_alerts vendor_id status severity db =
      select
        (λ (a : Alert).
          matches vendor_id a.vendor_id && (matches status a.status && matches severity a.severity))
        db.alerts

  unfoldable pub count_open_alerts : Db F → ℕ
  count_open_alerts db = count_where (λ (a : Alert). not (a.status == "resolved")) db.alerts

  unfoldable pub store : String → (Alert → Alert) → Db F → Db F
  store alert_id change db = record db {
    alerts = update_where (λ (a : Alert). a.id == alert_id) change db.alerts;
  }

  unfoldable pub acknowledge_alert :
      Env → Clock → TokenPayload → String → String → Db F → Result (Alert × Db F)
  acknowledge_alert env clock user alert_id note db = do
    writer ← require_role writers user
    alert ← or_raise (get_alert alert_id db) not_found
    raise_if (alert.status == "resolved") (Error.http 409 "alert already resolved")
    ok (
      acknowledged writer.sub clock.now alert,
      audit env writer.sub "ALERT_ACKNOWLEDGED" (fstring ("alert:" ∷ alert_id ∷ []))
          (some (("note", Detail.value (str note)) ∷ [])) clock.now_text
          (store alert_id (acknowledged writer.sub clock.now) db),
    )

  unfoldable pub resolve_alert :
      Env → Clock → TokenPayload → String → String → Db F → Result (Alert × Db F)
  resolve_alert env clock user alert_id note db = do
    writer ← require_role writers user
    alert ← or_raise (get_alert alert_id db) not_found
    ok (
      resolved clock.now alert,
      audit env writer.sub "ALERT_RESOLVED" (fstring ("alert:" ∷ alert_id ∷ []))
          (some (("note", Detail.value (str note)) ∷ [])) clock.now_text
          (store alert_id (resolved clock.now) db),
    )
