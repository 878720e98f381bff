-- ===== src/Risk/Service.antt =====
-- services/risk-service/app: `compute_for_vendor` of services/vrs_calculator.py, services/anomaly/, services/events.py,
-- services/audit.py, and the routes of routers/risk.py and routers/internal.py. The trained model comes from
-- outside, none where its file is missing. A reading route has a token that was accepted.
use sc_tpcrs.Prelude.{
  ℕ, String, Bool, not, ◌&&◌, ◌||◌, Option, none, some, List, [], ◌∷◌, ◌++◌, ◌==◌, length, map,
  select, last?, find_first, fstring, or_else, Result, ok, Error, ◌>>=◌, or_raise, if◌then◌else◌,
}
use sc_tpcrs.Prelude.Floats.{Floats}
use sc_tpcrs.Prelude.Value.{
  Value, null, str, real, Details, Detail, get_or, truthy, to_text, is_text,
}
use sc_tpcrs.Audit.{Hashing, record_audit_event}
use sc_tpcrs.Jwt.{TokenPayload, require_role}
use sc_tpcrs.Kafka.{Bus, Event, publish, risk_score_updates, risk_anomaly_alerts}
use sc_tpcrs.Risk.Models.{Scores, RiskScoreHistory, AnomalyFlag, Db, World, Call}
use sc_tpcrs.Risk.Sources.{
  Adapters, get_questionnaire_score, get_external_posture_score, get_vulnerability_score,
  get_breach_history_score, get_threat_intel_score, get_compliance_score,
}
use sc_tpcrs.Risk.Scoring.{compute_vrs, tier_for_vrs}

-- `predict_proba([features])[0][1]`.
pub record Model (F : Type 0) : Type 0 where
  pub predict_proba : List F → F
  pub version : String

unfoldable pub tier_ordinals : List (String × ℕ)
tier_ordinals = ("Low", 0) ∷ ("Medium", 1) ∷ ("High", 2) ∷ ("Critical", 3) ∷ []

unfoldable pub tier_ordinal : String → Result ℕ
unfolding tier_ordinals
tier_ordinal tier =
    or_raise (find_first (λ (e : String × ℕ). (e.0) == tier) tier_ordinals)
      (Error.external "KeyError")
    >>= λ e. ok e.1

-- A component of a request.
pub record TechStackComponent : Type 0 where
  pub component_name : String
  pub component_version : String
  pub ecosystem : String

module _ (fl : Floats) where
  open fl use {F, literal, of_int, sub, le, repr}

  -- The features under their names.
  unfoldable pub feature_vector : RiskScoreHistory F → ℕ → F → List (String × F)
  feature_vector row ordinal delta =
      ("questionnaire_score", row.inputs_snapshot.questionnaire_score)
      ∷ ("external_posture_score", row.inputs_snapshot.external_posture_score)
      ∷ ("vulnerability_score", row.inputs_snapshot.vulnerability_score)
      ∷ ("breach_history_score", row.inputs_snapshot.breach_history_score)
      ∷ ("threat_intel_score", row.inputs_snapshot.threat_intel_score)
      ∷ ("compliance_score", row.inputs_snapshot.compliance_score)
      ∷ ("vrs_score", row.vrs_score)
      ∷ ("tier_ordinal", of_int ordinal)
      ∷ ("vrs_delta_vs_previous", delta)
      ∷ []

  -- The newest other row of the vendor, or the row itself.
  unfoldable pub previous_vrs : RiskScoreHistory F → Db F → F
  previous_vrs row db =
      elim (last? (
        select (λ (r : RiskScoreHistory F). r.vendor_id == row.vendor_id && not (r.id == row.id))
          db.scores)) [ none ↦ row.vrs_score | some previous ↦ previous.vrs_score ]

  unfoldable pub flag_of : Call → Model F → RiskScoreHistory F → List (String × F) → AnomalyFlag F
  flag_of call model row features =
      let proba = model.predict_proba (map (λ (e : String × F). e.1) features) in
      record {
        id = call.flag_id;
        vendor_id = row.vendor_id;
        detected_at = call.now;
        anomaly_score = proba;
        is_anomalous = le (literal "0.7") proba;
        feature_snapshot = features;
        model_version = model.version;
      }

  unfoldable pub evaluate_anomaly :
      Call → Option (Model F) → RiskScoreHistory F → Db F → Result (Option (AnomalyFlag F) × Db F)
  unfolding feature_vector previous_vrs flag_of tier_ordinal
  evaluate_anomaly call none row db = ok (none, db)
  evaluate_anomaly call (some model) row db = do
    ordinal ← tier_ordinal row.tier
    let flag =
        flag_of call model row
          (feature_vector row ordinal (sub row.vrs_score (previous_vrs row db)))
    ok (some flag, record db { flags = db.flags ++ flag ∷ [] })

  unfoldable pub collect_scores : Adapters F → String → Result String → Db F → Result (Scores F)
  collect_scores adapters vendor_text vendor_id db = do
    questionnaire ← get_questionnaire_score fl adapters vendor_text
    posture ← get_external_posture_score fl adapters vendor_text
    bound ← vendor_id
    vulnerability ← get_vulnerability_score fl adapters bound db
    breach ← get_breach_history_score fl adapters vendor_text
    threat ← get_threat_intel_score fl adapters vendor_text
    compliance ← get_compliance_score fl adapters vendor_text
    ok (record {
      questionnaire_score = questionnaire;
      external_posture_score = posture;
      vulnerability_score = vulnerability;
      breach_history_score = breach;
      threat_intel_score = threat;
      compliance_score = compliance;
    })

  unfoldable pub score_row : Call → String → Scores F → RiskScoreHistory F
  score_row call vendor_id scores =
      let vrs = compute_vrs fl scores in
      record {
        id = call.score_id;
        vendor_id = vendor_id;
        vrs_score = vrs;
        tier = tier_for_vrs fl vrs;
        inputs_snapshot = scores;
        computed_at = call.now;
      }

  -- `vendor_id` is the identifier as the database takes it, which may refuse it; the sources get its text.
  unfoldable pub compute_for_vendor :
      Adapters F
      → Option (Model F)
      → Call
      → String
      → Result String
      → Db F
      → Result (RiskScoreHistory F × Option (AnomalyFlag F) × Db F)
  unfolding collect_scores score_row evaluate_anomaly
  compute_for_vendor adapters model call vendor_text vendor_id db = do
    scores ← collect_scores adapters vendor_text vendor_id db
    bound ← vendor_id
    let row = score_row call bound scores
    evaluated ← evaluate_anomaly call model row (record db { scores = db.scores ++ row ∷ [] })
    ok (row, evaluated.0, evaluated.1)

  unfoldable pub score_details : RiskScoreHistory F → Details
  score_details row =
      ("vrs_score", Detail.value (real (repr row.vrs_score)))
      ∷ ("tier", Detail.value (str row.tier))
      ∷ []

  -- What follows the computation of a request: the audit row and the commit.
  unfoldable pub recorded_score :
      Hashing → Call → String → String → RiskScoreHistory F → Db F → World F → World F
  unfolding score_details
  recorded_score hashing call actor vendor_id row db w = record w {
    db = record db {
      audit_log =
          record_audit_event hashing actor "VRS_COMPUTED" (fstring ("vendor:" ∷ vendor_id ∷ []))
            (some (score_details row)) call.now_text db.audit_log;
    };
  }

  unfoldable pub compute_risk_score :
      Hashing
      → Adapters F
      → Option (Model F)
      → Call
      → TokenPayload
      → String
      → World F
      → Result (RiskScoreHistory F × World F)
  unfolding recorded_score
  compute_risk_score hashing adapters model call user vendor_id w = do
    writer ← require_role ("risk_officer" ∷ "ciso" ∷ "admin" ∷ []) user
    r ← compute_for_vendor adapters model call vendor_id (ok vendor_id) w.db
    ok (r.0, recorded_score hashing call writer.sub vendor_id r.0 r.2 w)

  unfoldable pub get_latest_risk_score : String → Db F → Option (RiskScoreHistory F)
  get_latest_risk_score vendor_id db =
      last? (select (λ (r : RiskScoreHistory F). r.vendor_id == vendor_id) db.scores)

  unfoldable pub get_risk_score_history : String → Db F → List (RiskScoreHistory F)
  get_risk_score_history vendor_id db =
      select (λ (r : RiskScoreHistory F). r.vendor_id == vendor_id) db.scores

  unfoldable pub get_latest_anomaly : String → Db F → Result (AnomalyFlag F)
  get_latest_anomaly vendor_id db =
      or_raise (last? (select (λ (f : AnomalyFlag F). f.vendor_id == vendor_id) db.flags))
        (Error.http 404 "No anomaly evaluation found for this vendor")

  unfoldable pub add_components : Call → String → List TechStackComponent → Db F → Db F
  add_components call vendor_id [] db = db
  add_components call vendor_id (c ∷ cs) db = add_components call vendor_id cs (record db {
    tech_stack =
        db.tech_stack
        ++ record {
          id = call.component_id (length db.tech_stack);
          vendor_id = vendor_id;
          component_name = c.component_name;
          component_version = c.component_version;
          ecosystem = c.ecosystem;
        }
          ∷ [];
  })

  -- The number of the components that were added, and the tables.
  unfoldable pub add_tech_stack_components :
      Call → TokenPayload → String → List TechStackComponent → Db F → Result (ℕ × Db F)
  unfolding add_components
  add_tech_stack_components call user vendor_id components db = do
    admin ← require_role ("admin" ∷ []) user
    ok (length components, add_components call vendor_id components db)

  unfoldable pub publish_score : Value → RiskScoreHistory F → Bus → Bus
  publish_score vendor_id row bus =
      (publish risk_score_updates "risk.score.updated"
        (("vendor_id", vendor_id)
          ∷ ("vrs_score", real (repr row.vrs_score))
          ∷ ("tier", str row.tier)
          ∷ [])
        (some (to_text vendor_id)) bus).1

  unfoldable pub publish_anomaly : Value → Option (AnomalyFlag F) → Bus → Bus
  publish_anomaly vendor_id none bus = bus
  publish_anomaly vendor_id (some flag) bus =
      if flag.is_anomalous
      then (publish risk_anomaly_alerts "risk.anomaly.detected"
          (("vendor_id", vendor_id) ∷ ("anomaly_score", real (repr flag.anomaly_score)) ∷ [])
          (some (to_text vendor_id)) bus).1
      else bus

  -- `to_state in TRIGGER_STATES`.
  abbrev is_trigger : Value → Bool
  is_trigger v =
      is_text v "QUESTIONNAIRE_COMPLETED"
      || (is_text v "ASSESSMENT_IN_PROGRESS" || is_text v "ONBOARDED")

  -- `parse_uuid` is what the driver of the database makes of a text, none if it raises.
  unfoldable pub score_vendor :
      (String → Option String)
      → Adapters F
      → Option (Model F)
      → Call
      → Value
      → World F
      → Result (World F)
  unfolding publish_score publish_anomaly
  score_vendor parse_uuid adapters model call vendor_id w = do
    r ←
        compute_for_vendor adapters model call (to_text vendor_id)
          (or_raise (parse_uuid (to_text vendor_id)) (Error.external "StatementError")) w.db
    ok (record {
      db = r.2;
      bus = publish_anomaly vendor_id r.1 (publish_score vendor_id r.0 w.bus);
    })

  unfoldable pub handle_vendor_lifecycle_event :
      (String → Option String)
      → Adapters F
      → Option (Model F)
      → Call
      → Event
      → World F
      → Result (World F)
  unfolding score_vendor
  handle_vendor_lifecycle_event parse_uuid adapters model call event w =
      let payload = or_else event.payload [] in
      let to_state = get_or payload "to_state" null in
      let vendor_id = get_or payload "vendor_id" null in
      if not (is_trigger to_state) || not (truthy vendor_id)
      then ok w
      else score_vendor parse_uuid adapters model call vendor_id w
