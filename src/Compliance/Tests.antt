-- ===== src/Compliance/Tests.antt =====
-- Concrete runs of compliance-service, for the controls of one framework. Floats are whole numbers here, and
-- every control draws the same number.
use sc_tpcrs.Prelude.{
  ℕ, ◌+◌, ◌-◌, ◌*◌, ◌/◌, String, ◌≡◌, refl, true, false, [], ◌∷◌, ltb, leb, decimal, ok,
}
use sc_tpcrs.Prelude.Floats.{Floats}
use sc_tpcrs.Jwt.{TokenPayload}
use sc_tpcrs.Audit.{Hashing}
use sc_tpcrs.Compliance.Models.{gap, Assessment, World, Call, ControlOverride, AssessmentRequest}
use sc_tpcrs.Compliance.Service.{control_results_for}
use sc_tpcrs.Compliance.Reporting.{Report}
use sc_tpcrs.Compliance.Router.{create_assessment, regulatory_report}
use sc_tpcrs.Compliance.Laws.{
  results_of, AssessmentOutcome, create_assessment_outcome, create_assessment_known,
}
use sc_tpcrs.Compliance.Stored.{IsNew, IsConsistent, answer_of, create_assessment-IsConsistent}
use sc_tpcrs.Compliance.Reports.{IsReported, regulatory_report-IsReported}

abbrev whole : Floats
whole = record {
  F = ℕ;
  literal = λ s. 1;
  of_int = λ n. n;
  add = λ a b. a + b;
  sub = λ a b. a - b;
  mul = λ a b. a * b;
  div = λ a b. a / b;
  lt = ltb;
  le = leb;
  round2 = λ a. a;
  fixed1 = decimal;
  repr = decimal;
}

abbrev draw : String → String → ℕ
draw vendor control = 1

abbrev hashing : Hashing
hashing = record { sha256_hex = λ s. s; json_dumps = λ e. e.action }

abbrev manager : TokenPayload
manager = record {
  sub = "ada";
  role = "compliance_manager";
  mfa_verified = true;
  exp = 9000;
  iat = 0;
}

abbrev call : Call
call = record { now = 5; now_text = "t5"; new_id = "a1"; row_id = λ n. decimal n }

abbrev empty : World ℕ
empty = record {
  db = record { assessments = []; control_results = []; audit_log = [] };
  bus = record { connected = false; start_ok = true; send_ok = true; now = "t5"; sent = [] };
}

abbrev override : ControlOverride
override = record { control_id = "CBN-2.1"; status = gap; evidence = ""; remediation = "by hand" }

abbrev request : AssessmentRequest
request = record {
  vendor_id = "v1";
  framework = "CBN Cybersecurity Framework";
  overrides = override ∷ [];
}

create_assessment_outcome_example :
    AssessmentOutcome whole draw hashing call manager request empty
      (create_assessment whole hashing draw call manager request empty)
create_assessment_outcome_example =
    create_assessment_outcome whole draw hashing call manager request empty

empty-IsNew : IsNew "a1" empty.db
empty-IsNew = record { of_results = tt; of_assessments = tt }

abbrev made : Assessment ℕ × World ℕ
made = answer_of whole draw hashing call manager request empty

assessment_is_made : create_assessment whole hashing draw call manager request empty ≡ ok made
assessment_is_made = create_assessment_known whole draw hashing call manager request empty refl refl

create_assessment-IsConsistent_example :
    IsConsistent made.0
      (results_of whole draw request)
      (control_results_for whole (made.0).id (made.1).db)
create_assessment-IsConsistent_example =
    create_assessment-IsConsistent whole draw hashing call manager request empty made.1 made.0
      empty-IsNew assessment_is_made

regulatory_report-IsReported_example :
    (r : Report ℕ) × (regulatory_report whole decimal decimal 9 (made.0).id (made.1).db ≡ ok r)
    × IsReported whole draw request made.0 r
regulatory_report-IsReported_example =
    regulatory_report-IsReported whole draw decimal decimal 9 hashing call manager request empty
      made.1 made.0 empty-IsNew assessment_is_made
