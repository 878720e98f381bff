-- ===== src/Incident/Lifecycle.antt =====
-- services/incident-service/app/services/lifecycle.py and the settings of app/config.py that it reads.
-- A time is a number of seconds, so there are no naive datetimes.
pub mod Laws
use sc_tpcrs.Prelude.{
  ℕ, ◌+◌, ◌*◌, String, Bool, true, false, ◌||◌, List, [], ◌∷◌, ◌==◌, one_of, leb, ltb,
  if◌then◌else◌,
}

pub record Settings : Type 0 where
  pub auto_open_min_severity : String
  pub sla_hours_critical : ℕ
  pub sla_hours_high : ℕ
  pub sla_hours_medium : ℕ
  pub sla_hours_low : ℕ
  pub cbn_deadline_hours : ℕ
  pub ndpa_deadline_hours : ℕ

-- The defaults of config.py.
abbrev pub default_settings : Settings
default_settings = record {
  auto_open_min_severity = "High";
  sla_hours_critical = 24;
  sla_hours_high = 72;
  sla_hours_medium = 168;
  sla_hours_low = 336;
  cbn_deadline_hours = 24;
  ndpa_deadline_hours = 72;
}

abbrev pub statuses : List String
statuses = "open" ∷ "investigating" ∷ "contained" ∷ "resolved" ∷ "closed" ∷ []

-- `_TRANSITIONS.get(current, set())`.
unfoldable pub transitions : String → List String
transitions current =
    if current == "open"
    then "investigating" ∷ "contained" ∷ "resolved" ∷ "closed" ∷ []
    else if current == "investigating"
    then "contained" ∷ "resolved" ∷ "closed" ∷ []
    else if current == "contained"
    then "resolved" ∷ "investigating" ∷ "closed" ∷ []
    else if current == "resolved"
    then "closed" ∷ "investigating" ∷ []
    else []

unfoldable pub can_transition : String → String → Bool
unfolding transitions
can_transition current target = one_of target (transitions current)

unfoldable pub severity_rank : String → ℕ
severity_rank sev =
    if sev == "Low"
    then 0
    else if sev == "Medium"
    then 1
    else if sev == "High"
    then 2
    else if sev == "Critical"
    then 3
    else 0

unfoldable pub meets_auto_open_threshold : Settings → String → Bool
unfolding severity_rank
meets_auto_open_threshold settings severity =
    leb (severity_rank settings.auto_open_min_severity) (severity_rank severity)

unfoldable pub sla_window_hours : Settings → String → ℕ
sla_window_hours settings severity =
    if severity == "Critical"
    then settings.sla_hours_critical
    else if severity == "High"
    then settings.sla_hours_high
    else if severity == "Medium"
    then settings.sla_hours_medium
    else if severity == "Low"
    then settings.sla_hours_low
    else settings.sla_hours_medium

-- `timedelta(hours=h)` in seconds.
abbrev pub hours : ℕ → ℕ
hours h = h * 3600

unfoldable pub sla_due_at : Settings → ℕ → String → ℕ
unfolding sla_window_hours
sla_due_at settings opened_at severity = opened_at + hours (sla_window_hours settings severity)

unfoldable pub is_sla_breached : ℕ → String → ℕ → Bool
is_sla_breached sla_due status now =
    if one_of status ("resolved" ∷ "closed" ∷ []) then false else ltb sla_due now

unfoldable pub category_for_alert_type : String → String
category_for_alert_type alert_type =
    if alert_type == "POSTURE_DRIFT"
    then "SECURITY_POSTURE"
    else if alert_type == "NEW_EXPOSED_SERVICE"
    then "SECURITY_POSTURE"
    else if alert_type == "THREAT_INTEL_MATCH"
    then "THREAT_INTEL"
    else if alert_type == "CRITICAL_CVE"
    then "VULNERABILITY"
    else if alert_type == "COMPLIANCE_GAP"
    then "COMPLIANCE"
    else if alert_type == "RISK_ANOMALY"
    then "RISK"
    else "SECURITY_POSTURE"

unfoldable pub category_implies_data_breach : String → Bool
category_implies_data_breach category = category == "DATA_BREACH"
