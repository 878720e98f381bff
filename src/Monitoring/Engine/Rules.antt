-- ===== src/Monitoring/Engine/Rules.antt =====
-- The alerts that a snapshot or an event calls for, in services/monitoring-service/app/services/alert_engine.py.
use sc_tpcrs.Prelude.{
  ℕ, String, not, ◌&&◌, ◌||◌, Option, none, some, List, [], ◌∷◌, ◌++◌, map, ◌==◌, leb, ltb, select,
  one_of, fstring, decimal, contains_text, starts_with, ends_with, or_else, Result, ok, Error,
  ◌>>=◌, or_raise, if◌then◌else◌,
}
use sc_tpcrs.Prelude.Value.{
  Value, null, boolean, integer, real, str, Dict, Details, Detail, get_or, truthy, to_text, is_text,
  as_details,
}
use sc_tpcrs.Kafka.{Event}
use sc_tpcrs.Prelude.Floats.{Floats}
use sc_tpcrs.Monitoring.Models.{Env}
use sc_tpcrs.Monitoring.Posture.{PostureReading}

pub record AlertSpec : Type 0 where
  pub vendor_id : String
  pub alert_type : String
  pub severity : String
  pub title : String
  pub description : String
  pub dedup_key : String
  pub source : String
  pub details : Details

unfoldable pub severity_rank : String → ℕ
severity_rank sev =
    if sev == "Low"
    then 0
    else if sev == "Medium"
    then 1
    else if sev == "High"
    then 2
    else if sev == "Critical"
    then 3
    else 0

-- The sensitive services in the order of `sorted`.
abbrev pub sensitive_services : List String
sensitive_services = "ftp" ∷ "rdp" ∷ "smtp" ∷ "telnet" ∷ []

-- The order of `sorted((open - previous) & sensitive)` is that of the sorted set of sensitive services.
unfoldable pub new_sensitive : List String → List String → List String
new_sensitive open_services previous =
    select (λ svc. one_of svc open_services && not (one_of svc previous)) sensitive_services

module _ (fl : Floats) where
  open fl use {F, literal, sub, le, round2, fixed1, repr}

  -- The thresholds are `settings.posture_drift_critical` and `settings.posture_drift_warning`.
  unfoldable pub drift_severity : F → F → F → Option String
  drift_severity critical warning drift =
      if le critical drift then some "Critical" else if le warning drift then some "High" else none

  abbrev drift_spec : String → PostureReading F → F → F → String → AlertSpec
  drift_spec vendor_id reading previous drift severity = record {
    vendor_id = vendor_id;
    alert_type = "POSTURE_DRIFT";
    severity = severity;
    title = fstring ("Security posture degraded by " ∷ fixed1 drift ∷ " points" ∷ []);
    description = fstring (
        "Exposure index rose from "
        ∷ fixed1 previous
        ∷ " to "
        ∷ fixed1 reading.exposure_index
        ∷ " since the last sweep."
        ∷ []);
    dedup_key = "POSTURE_DRIFT";
    source = "sweep";
    details =
        ("drift", Detail.value (real (repr drift)))
        ∷ ("exposure_index", Detail.value (real (repr reading.exposure_index)))
        ∷ [];
  }

  unfoldable pub drift_specs : F → F → String → PostureReading F → Option F → List AlertSpec
  unfolding drift_severity
  drift_specs critical warning vendor_id reading none = []
  drift_specs critical warning vendor_id reading (some previous) =
      let drift = round2 (sub reading.exposure_index previous) in
      elim (drift_severity critical warning drift) [
        | none ↦ []
        | some severity ↦ drift_spec vendor_id reading previous drift severity ∷ []
      ]

  abbrev service_spec : Env → String → PostureReading F → String → AlertSpec
  service_spec env vendor_id reading svc = record {
    vendor_id = vendor_id;
    alert_type = "NEW_EXPOSED_SERVICE";
    severity = "High";
    title = fstring ("Newly exposed sensitive service: " ∷ env.upper svc ∷ []);
    description =
        fstring
          ("The '" ∷ svc ∷ "' service is now internet-exposed and was not in the prior scan." ∷ []);
    dedup_key = fstring ("NEW_EXPOSED_SERVICE:" ∷ svc ∷ []);
    source = "sweep";
    details =
        ("service", Detail.value (str svc))
        ∷ ("open_services", Detail.texts reading.open_services)
        ∷ [];
  }

  abbrev ioc_spec : String → PostureReading F → AlertSpec
  ioc_spec vendor_id reading = record {
    vendor_id = vendor_id;
    alert_type = "THREAT_INTEL_MATCH";
    severity = if leb 3 reading.ioc_match_count then "High" else "Medium";
    title = fstring (decimal reading.ioc_match_count ∷ " threat-intel IOC match(es)" ∷ []);
    description = "Indicators of compromise associated with this vendor's assets were observed.";
    dedup_key = "THREAT_INTEL_MATCH";
    source = "sweep";
    details = ("ioc_match_count", Detail.value (integer reading.ioc_match_count)) ∷ [];
  }

  unfoldable pub evaluate_snapshot :
      Env → F → F → String → PostureReading F → Option F → Option (List String) → List AlertSpec
  unfolding drift_specs new_sensitive
  evaluate_snapshot env critical warning vendor_id reading previous_exposure previous_services =
      drift_specs critical warning vendor_id reading previous_exposure
      ++ (map (service_spec env vendor_id reading)
            (new_sensitive reading.open_services (or_else previous_services []))
          ++ (if ltb 0 reading.ioc_match_count then ioc_spec vendor_id reading ∷ [] else []))

-- `int(v or 0)`.
unfoldable pub int_or_zero : Env → Value → Result ℕ
int_or_zero env v = if not (truthy v) then ok 0 else elim v [
  | null ↦ ok 0
  | boolean b ↦ ok 1
  | integer n ↦ ok n
  | real r ↦ or_raise (env.parse_int r) (Error.value_error "cannot convert float to integer")
  | str s ↦ or_raise (env.parse_int s) (Error.value_error "invalid literal for int()")
]

abbrev cve_spec : String → Dict → AlertSpec
cve_spec topic payload =
    let cve = to_text (get_or payload "cve_id" (str "a critical CVE")) in
    let description = get_or payload "description" null in
    record {
      vendor_id = to_text (get_or payload "vendor_id" null);
      alert_type = "CRITICAL_CVE";
      severity = "Critical";
      title = fstring ("Critical CVE affecting vendor components: " ∷ cve ∷ []);
      description =
          if truthy description
          then to_text description
          else fstring (cve ∷ " was flagged against this vendor's software components." ∷ []);
      dedup_key = fstring ("CRITICAL_CVE:" ∷ cve ∷ []);
      source = topic;
      details = as_details payload;
    }

abbrev compliance_spec : String → Dict → ℕ → AlertSpec
compliance_spec topic payload crit =
    let status = get_or payload "status" null in
    record {
      vendor_id = to_text (get_or payload "vendor_id" null);
      alert_type = "COMPLIANCE_GAP";
      severity = if is_text status "Non-Compliant" then "High" else "Medium";
      title =
          fstring (
            "Compliance issue: " ∷ to_text status ∷ " (" ∷ decimal crit ∷ " critical gap(s))" ∷ []);
      description = fstring (
          "Latest "
          ∷ to_text (get_or payload "framework" (str "compliance"))
          ∷ " assessment scored "
          ∷ to_text (get_or payload "compliance_score" (str "?"))
          ∷ "% ("
          ∷ to_text status
          ∷ ")."
          ∷ []);
      dedup_key =
          fstring ("COMPLIANCE_GAP:" ∷ to_text (get_or payload "framework" (str "ALL")) ∷ []);
      source = topic;
      details = as_details payload;
    }

abbrev anomaly_spec : String → Dict → AlertSpec
anomaly_spec topic payload = record {
  vendor_id = to_text (get_or payload "vendor_id" null);
  alert_type = "RISK_ANOMALY";
  severity = "High";
  title = "Anomalous risk-score movement detected";
  description = "risk-service flagged this vendor's latest score as anomalous.";
  dedup_key = "RISK_ANOMALY";
  source = topic;
  details = as_details payload;
}

abbrev compliance_alert : Env → String → Dict → Result (Option AlertSpec)
compliance_alert env topic payload = do
  crit ← int_or_zero env (get_or payload "critical_gap_count" (integer 0))
  ok (
      if is_text (get_or payload "status" null) "Non-Compliant" || ltb 0 crit
      then some (compliance_spec topic payload crit)
      else none)

unfoldable pub alert_from_event : Env → String → Event → Result (Option AlertSpec)
alert_from_event env topic event =
    let payload = or_else event.payload [] in
    let event_type = or_else event.event_type "" in
    if not (truthy (get_or payload "vendor_id" null))
    then ok none
    else if ends_with topic "cve.alerts" || starts_with event_type "cve."
    then ok (some (cve_spec topic payload))
    else if contains_text topic "compliance" || starts_with event_type "compliance."
    then compliance_alert env topic payload
    else if contains_text topic "anomaly" || starts_with event_type "risk.anomaly"
    then ok (some (anomaly_spec topic payload))
    else ok none
