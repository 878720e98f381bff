-- ===== src/Compliance/Reporting.antt =====
-- services/compliance-service/app/services/reporting.py. The clock and the formats of a date and of a number
-- with two decimals come from outside.
use sc_tpcrs.Prelude.{
  ℕ, ◌+◌, String, Bool, not, ◌&&◌, ◌||◌, List, [], ◌∷◌, ◌==◌, ltb, length, select, count_where,
  fstring, decimal, if◌then◌else◌,
}
use sc_tpcrs.Prelude.Floats.{Floats}
use sc_tpcrs.Prelude.Order.{sort_with}
use sc_tpcrs.Prelude.Groups.{group_from}
use sc_tpcrs.Compliance.Models.{
  ControlStatus, met, partial, gap, not_applicable, is_met, is_partial, is_gap, is_not_applicable,
  Assessment, ControlResult,
}
use sc_tpcrs.Compliance.Engine.{critical_gap_weight, DomainRow, same_domain, flagged_first}

-- The comparison of the keys (not critical, not a gap, -weight).
abbrev pub is_prior : ControlResult → ControlResult → Bool
is_prior a b =
    flagged_first a.is_critical_gap b.is_critical_gap
      (flagged_first (is_gap a.status) (is_gap b.status) (ltb b.weight a.weight))

unfoldable pub prioritise_gaps : List ControlResult → List ControlResult
prioritise_gaps rows =
    sort_with is_prior (select (λ (r : ControlResult). is_gap r.status || is_partial r.status) rows)

pub record Report (F : Type 0) : Type 0 where
  pub generated_at : ℕ
  pub vendor_id : String
  pub framework : String
  pub assessment : Assessment F
  pub framework_breakdown : List (DomainRow F)
  pub control_register : List ControlResult
  pub prioritised_gaps : List ControlResult
  pub attestation : String

module _ (fl : Floats) where
  open fl use {F, literal, of_int, add, mul, div, lt, round2}

  -- `_credit[r.status]`; a control that is not applicable is left out before.
  unfoldable pub credit : ControlStatus → F
  credit met = literal "1.0"
  credit partial = literal "0.5"
  credit gap = literal "0.0"
  credit not_applicable = literal "0.0"

  unfoldable pub earned_from : F → List ControlResult → F
  earned_from sum [] = sum
  earned_from sum (r ∷ rs) = earned_from (add sum (mul (credit r.status) (of_int r.weight))) rs

  unfoldable pub possible : List ControlResult → ℕ
  possible [] = 0
  possible (r ∷ rs) = r.weight + possible rs

  unfoldable pub applicable_score : List ControlResult → F
  unfolding credit earned_from possible
  applicable_score [] = literal "100.0"
  applicable_score (r ∷ rs) =
      round2
        (div (mul (literal "100.0") (earned_from (of_int 0) (r ∷ rs))) (of_int (possible (r ∷ rs))))

  unfoldable pub rows_of_buckets :
      List ((String × String) × List ControlResult) → List (DomainRow F)
  unfolding applicable_score
  rows_of_buckets [] = []
  rows_of_buckets (((framework, domain), rs) ∷ buckets) =
      record {
        framework = framework;
        domain = domain;
        total = length rs;
        met = count_where (λ (r : ControlResult). is_met r.status) rs;
        partial = count_where (λ (r : ControlResult). is_partial r.status) rs;
        gap = count_where (λ (r : ControlResult). is_gap r.status) rs;
        not_applicable = count_where (λ (r : ControlResult). is_not_applicable r.status) rs;
        score =
            applicable_score (select (λ (r : ControlResult). not (is_not_applicable r.status)) rs);
      }
      ∷ rows_of_buckets buckets

  -- The comparison of the keys (score, -gap).
  abbrev is_lower : DomainRow F → DomainRow F → Bool
  is_lower a b = lt a.score b.score || not (lt b.score a.score) && ltb b.gap a.gap

  unfoldable pub domain_breakdown_from_rows : List ControlResult → List (DomainRow F)
  unfolding rows_of_buckets
  domain_breakdown_from_rows rows = sort_with is_lower (
      rows_of_buckets
        (group_from same_domain (λ (r : ControlResult). (r.framework, r.domain)) rows []))

  -- `date` is the format `%Y-%m-%d` of a time, `fixed2` the format `.2f`.
  unfoldable pub attestation : (ℕ → String) → (F → String) → Assessment F → String
  attestation date fixed2 assessment = fstring (
      "This report attests that vendor "
      ∷ assessment.vendor_id
      ∷ " was assessed against "
      ∷ (if assessment.framework == "ALL" then "the full control library" else assessment.framework)
      ∷ " on "
      ∷ date assessment.created_at
      ∷ " by "
      ∷ assessment.created_by
      ∷ ". Overall weighted compliance score: "
      ∷ fixed2 assessment.compliance_score
      ∷ "% ("
      ∷ assessment.status
      ∷ "). "
      ∷ decimal assessment.critical_gap_count
      ∷ " critical gap(s) (material controls of weight >= "
      ∷ decimal critical_gap_weight
      ∷ ") require remediation. Generated by SC-TPCRS compliance-service; control results are reproducible and the audit trail is hash-chained (see audit_log)."
      ∷ [])

  unfoldable pub build_report :
      (ℕ → String) → (F → String) → ℕ → Assessment F → List ControlResult → Report F
  unfolding domain_breakdown_from_rows prioritise_gaps attestation
  build_report date fixed2 now assessment rows = record {
    generated_at = now;
    vendor_id = assessment.vendor_id;
    framework = assessment.framework;
    assessment = assessment;
    framework_breakdown = domain_breakdown_from_rows rows;
    control_register = rows;
    prioritised_gaps = prioritise_gaps rows;
    attestation = attestation date fixed2 assessment;
  }
