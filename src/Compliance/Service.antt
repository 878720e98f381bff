-- ===== src/Compliance/Service.antt =====
-- services/compliance-service/app/services/assessment_service.py and services/audit.py. The rows of a query
-- without an order stand in the order of the table, and the newest row was added last.
use sc_tpcrs.Prelude.{
  ℕ, ◌+◌, String, ◌||◌, Option, none, some, List, [], ◌∷◌, ◌++◌, ◌==◌, take, select, find_first,
  last?, Result, ok, ◌>>=◌,
}
use mathlib.Core.List.{reverse}
use sc_tpcrs.Prelude.Floats.{Floats}
use sc_tpcrs.Prelude.Value.{Details}
use sc_tpcrs.Audit.{Hashing, record_audit_event}
use sc_tpcrs.Compliance.Models.{Assessment, ControlResult, ControlOverride, Db, Call}
use sc_tpcrs.Compliance.Engine.{
  EvaluatedControl, evaluate_controls, compliance_score, status_from_score, summarise,
  framework_score_breakdown,
}

-- The row of a result, the n-th of the assessment.
unfoldable pub result_row : Call → String → String → ℕ → EvaluatedControl → ControlResult
result_row call assessment_id vendor_id n r = record {
  id = call.row_id n;
  assessment_id = assessment_id;
  vendor_id = vendor_id;
  control_id = r.spec.control_id;
  framework = r.spec.framework;
  reference = r.spec.reference;
  domain = r.spec.domain;
  title = r.spec.title;
  weight = r.spec.weight;
  status = r.status;
  is_critical_gap = r.is_critical_gap;
  evidence = r.evidence;
  remediation = r.remediation;
}

unfoldable pub result_rows : Call → String → String → ℕ → List EvaluatedControl → List ControlResult
unfolding result_row
result_rows call assessment_id vendor_id n [] = []
result_rows call assessment_id vendor_id n (r ∷ rs) =
    result_row call assessment_id vendor_id n r
    ∷ result_rows call assessment_id vendor_id (n + 1) rs

module _ (fl : Floats) where
  open fl use {F}

  unfoldable pub new_assessment :
      Call → String → String → String → List EvaluatedControl → Assessment F
  new_assessment call vendor_id framework actor results =
      let score = compliance_score fl results in
      let summary = summarise results in
      record {
        id = call.new_id;
        vendor_id = vendor_id;
        framework = framework;
        compliance_score = score;
        status = status_from_score fl score;
        total_controls = summary.total_controls;
        compliant_count = summary.compliant_count;
        partial_count = summary.partial_count;
        gap_count = summary.gap_count;
        critical_gap_count = summary.critical_gap_count;
        framework_scores = framework_score_breakdown fl results;
        summary = summary;
        created_by = actor;
        created_at = call.now;
      }

  unfoldable pub store_assessment : Call → Assessment F → List EvaluatedControl → Db F → Db F
  store_assessment call assessment results db = record db {
    assessments = db.assessments ++ assessment ∷ [];
    control_results =
        db.control_results ++ result_rows call assessment.id assessment.vendor_id 0 results;
  }

  unfoldable pub run_assessment :
      (String → String → F)
      → Call
      → String
      → String
      → List ControlOverride
      → String
      → Db F
      → Result (Assessment F × Db F)
  unfolding new_assessment store_assessment
  run_assessment random call vendor_id framework overrides actor db = do
    results ← evaluate_controls fl random vendor_id framework overrides
    let assessment = new_assessment call vendor_id framework actor results
    ok (assessment, store_assessment call assessment results db)

  unfoldable pub get_assessment : String → Db F → Option (Assessment F)
  get_assessment assessment_id db =
      find_first (λ (a : Assessment F). a.id == assessment_id) db.assessments

  unfoldable pub latest_assessment_for_vendor :
      String → Option String → Db F → Option (Assessment F)
  latest_assessment_for_vendor vendor_id framework db =
      let of_vendor = select (λ (a : Assessment F). a.vendor_id == vendor_id) db.assessments in
      elim framework [
        | none ↦ last? of_vendor
        | some fw ↦ last? (select (λ (a : Assessment F). fw == "" || a.framework == fw) of_vendor)
      ]

  unfoldable pub control_results_for : String → Db F → List ControlResult
  control_results_for assessment_id db =
      select (λ (r : ControlResult). r.assessment_id == assessment_id) db.control_results

  unfoldable pub list_assessments : Option String → ℕ → Db F → List (Assessment F)
  list_assessments none limit db = take limit (reverse db.assessments)
  list_assessments (some vendor_id) limit db =
      take limit (reverse (select (λ (a : Assessment F). a.vendor_id == vendor_id) db.assessments))

  unfoldable pub audit : Hashing → Call → String → String → String → Details → Db F → Db F
  audit hashing call actor action resource details db = record db {
    audit_log =
        record_audit_event hashing actor action resource (some details) call.now_text db.audit_log;
  }
