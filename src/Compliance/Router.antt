-- ===== src/Compliance/Router.antt =====
-- services/compliance-service/app/routers/compliance.py and controls.py. The requests have passed their
-- schemas, and carry a token that was accepted where a route asks for a user and does not use it.
use sc_tpcrs.Prelude.{
  ℕ, String, Bool, not, ◌&&◌, Option, none, some, List, [], ◌∷◌, map, ◌==◌, select, one_of, fstring,
  Result, ok, Error, ◌>>=◌, ◌>>◌, raise_if, or_raise, if◌then◌else◌,
}
use sc_tpcrs.Prelude.Floats.{Floats}
use sc_tpcrs.Prelude.Value.{str, integer, real, Dict, Details, Detail}
use sc_tpcrs.Jwt.{TokenPayload, require_role}
use sc_tpcrs.Kafka.{Bus, publish, compliance_assessment_events}
use sc_tpcrs.Audit.{Hashing}
use sc_tpcrs.Compliance.Spec.{ControlSpec, all_frameworks}
use sc_tpcrs.Compliance.Library.{Counts, all_controls, framework_control_counts, library_size}
use sc_tpcrs.Compliance.Models.{
  ControlStatus, Assessment, ControlResult, Db, World, Call, AssessmentRequest,
}
use sc_tpcrs.Compliance.Engine.{DomainRow}
use sc_tpcrs.Compliance.Service.{
  run_assessment, get_assessment, control_results_for, list_assessments, audit,
}
use sc_tpcrs.Compliance.Reporting.{Report, build_report}

abbrev pub writers : List String
writers = "compliance_manager" ∷ "ciso" ∷ "admin" ∷ []

-- `', '.join(...)`.
join_names : List String → String
join_names [] = ""
join_names (s ∷ []) = s
join_names (s ∷ t ∷ ts) = fstring (s ∷ ", " ∷ join_names (t ∷ ts) ∷ [])

unfoldable pub unknown_framework : String → Error
unfolding join_names
unknown_framework framework = Error.http 422 (
    fstring
      ("unknown framework '" ∷ framework ∷ "'. Valid: ALL, " ∷ join_names all_frameworks ∷ []))

unfoldable pub validate_framework : String → Result (Unit {0})
validate_framework framework =
    raise_if (not (framework == "ALL") && not (one_of framework all_frameworks))
      (unknown_framework framework)

abbrev assessment_not_found : Error
assessment_not_found = Error.http 404 "assessment not found"

-- `counts[fw]`: the counts have an entry for every framework.
unfoldable pub count_of : Counts → String → String × ℕ
count_of [] fw = (fw, 0)
count_of ((k, n) ∷ counts) fw = let rest = count_of counts fw in if k == fw then (fw, n) else rest

-- The catalogue: its size, and for each framework the number of its controls.
unfoldable pub get_control_library : Result (ℕ × Counts)
unfolding count_of
get_control_library = do
  counts ← framework_control_counts
  size ← library_size
  ok (size, map (count_of counts) all_frameworks)

unfoldable pub list_controls : Option String → Result (List ControlSpec)
list_controls framework = do
  controls ← all_controls
  ok (elim framework [
    | none ↦ controls
    | some fw ↦
        if fw == "" then controls else select (λ (c : ControlSpec). c.framework == fw) controls
  ])

module _ (fl : Floats) where
  open fl use {F, repr}

  unfoldable pub assessment_payload : Assessment F → Dict
  assessment_payload a =
      ("vendor_id", str a.vendor_id)
      ∷ ("framework", str a.framework)
      ∷ ("compliance_score", real (repr a.compliance_score))
      ∷ ("status", str a.status)
      ∷ ("critical_gap_count", integer a.critical_gap_count)
      ∷ []

  unfoldable pub publish_assessment_event : Assessment F → Bus → Bool × Bus
  unfolding assessment_payload
  publish_assessment_event a bus =
      publish compliance_assessment_events "compliance.assessment.completed" (assessment_payload a)
        (some a.vendor_id) bus

  unfoldable pub assessed_details : Assessment F → Details
  assessed_details a =
      ("assessment_id", Detail.value (str a.id))
      ∷ ("framework", Detail.value (str a.framework))
      ∷ ("compliance_score", Detail.value (real (repr a.compliance_score)))
      ∷ ("status", Detail.value (str a.status))
      ∷ ("critical_gap_count", Detail.value (integer a.critical_gap_count))
      ∷ []

  -- What follows a run of a request: the audit row, the commit and the event.
  unfoldable pub recorded : Hashing → Call → String → Assessment F → Db F → Bus → World F
  unfolding assessed_details audit
  recorded hashing call actor a db bus = record {
    db =
        audit fl hashing call actor "COMPLIANCE_ASSESSED" (fstring ("vendor:" ∷ a.vendor_id ∷ []))
          (assessed_details a) db;
    bus = (publish_assessment_event a bus).1;
  }

  unfoldable pub create_assessment :
      Hashing
      → (String → String → F)
      → Call
      → TokenPayload
      → AssessmentRequest
      → World F
      → Result (Assessment F × World F)
  create_assessment hashing random call user body w = do
    writer ← require_role writers user
    validate_framework body.framework
    r ← run_assessment fl random call body.vendor_id body.framework body.overrides writer.sub w.db
    ok (r.0, recorded hashing call writer.sub r.0 r.1 w.bus)

  unfoldable pub get_one : String → Db F → Result (Assessment F)
  get_one assessment_id db = or_raise (get_assessment fl assessment_id db) assessment_not_found

  unfoldable pub list_all : Option String → ℕ → Db F → List (Assessment F)
  list_all vendor_id limit db = list_assessments fl vendor_id limit db

  pub record GapAnalysis : Type 0 where
    pub assessment_id : String
    pub vendor_id : String
    pub framework : String
    pub compliance_score : F
    pub status : String
    pub by_domain : List (DomainRow F)
    pub gaps : List ControlResult

  -- The report of a stored assessment.
  unfoldable pub regulatory_report :
      (ℕ → String) → (F → String) → ℕ → String → Db F → Result (Report F)
  unfolding get_one
  regulatory_report date fixed2 now assessment_id db = do
    assessment ← get_one assessment_id db
    ok (build_report fl date fixed2 now assessment (control_results_for fl assessment_id db))

  unfoldable pub gap_analysis : (ℕ → String) → (F → String) → ℕ → String → Db F → Result GapAnalysis
  unfolding get_one
  gap_analysis date fixed2 now assessment_id db = do
    assessment ← get_one assessment_id db
    let report =
        build_report fl date fixed2 now assessment (control_results_for fl assessment_id db)
    ok (record {
      assessment_id = assessment.id;
      vendor_id = assessment.vendor_id;
      framework = assessment.framework;
      compliance_score = assessment.compliance_score;
      status = assessment.status;
      by_domain = report.framework_breakdown;
      gaps = report.prioritised_gaps;
    })

  -- `text_of` is the text of a status, which the filter compares.
  unfoldable pub assessment_controls :
      (ControlStatus → String) → String → Option String → Db F → Result (List ControlResult)
  unfolding get_one
  assessment_controls text_of assessment_id status_filter db = do
    assessment ← get_one assessment_id db
    let rows = control_results_for fl assessment_id db
    ok (elim status_filter [
      | none ↦ rows
      | some s ↦
          if s == "" then rows else select (λ (r : ControlResult). text_of r.status == s) rows
    ])
