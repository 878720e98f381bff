-- ===== src/Compliance/Engine.antt =====
-- services/compliance-service/app/services/assessment_engine.py. The draws of the seeded random generator come
-- from outside. A score divides by the sum of weights, which is never zero: weights are at least one.
use sc_tpcrs.Prelude.{
  ℕ, ◌+◌, String, Bool, true, false, not, ◌&&◌, ◌||◌, Option, none, some, List, [], ◌∷◌, map, ◌==◌,
  ltb, leb, length, select, count_where, one_of, last?, fstring, text_or, Result, ok, err, Error,
  ◌>>=◌, if◌then◌else◌,
}
use sc_tpcrs.Prelude.Floats.{Floats}
use sc_tpcrs.Prelude.Order.{sort_with}
use sc_tpcrs.Prelude.Groups.{group_from}
use sc_tpcrs.Compliance.Spec.{ControlSpec, all_frameworks}
use sc_tpcrs.Compliance.Library.{all_controls, controls_for_framework}
use sc_tpcrs.Compliance.Models.{
  ControlStatus, met, partial, gap, not_applicable, is_met, is_partial, is_gap, is_not_applicable,
  ControlOverride, Summary,
}

abbrev pub critical_gap_weight : ℕ
critical_gap_weight = 4

pub record EvaluatedControl : Type 0 where
  pub spec : ControlSpec
  pub status : ControlStatus
  pub is_critical_gap : Bool
  pub evidence : String
  pub remediation : String

-- Of a framework that is unknown the error names the `repr`, which has the label between quotes.
unfoldable pub resolve_scope : String → Result (List ControlSpec)
resolve_scope framework =
    if framework == "ALL"
    then all_controls
    else if not (one_of framework all_frameworks)
    then err (Error.value_error (fstring ("unknown framework: '" ∷ framework ∷ "'" ∷ [])))
    else controls_for_framework framework

-- (evidence, remediation).
unfoldable pub evidence_for : ControlStatus → ControlSpec → String × String
evidence_for met spec =
    (fstring ("Evidence reviewed: control satisfied for " ∷ spec.reference ∷ "." ∷ []), "")
evidence_for partial spec = (
  fstring (
      "Partial evidence for " ∷ spec.reference
      ∷ ": control implemented but gaps in coverage/consistency remain." ∷ []),
  fstring ("Strengthen and fully operationalise '" ∷ spec.title ∷ "' to close residual gaps." ∷ []),
)
evidence_for gap spec = (
  fstring (
      "No adequate evidence for " ∷ spec.reference ∷ ": control not demonstrably implemented."
      ∷ []),
  fstring (
      "Implement '"
      ∷ spec.title
      ∷ "' and provide evidence; "
      ∷ (if leb critical_gap_weight spec.weight
          then "PRIORITY -- material control."
          else "schedule remediation.")
      ∷ []),
)
evidence_for not_applicable spec =
    (fstring (spec.reference ∷ " assessed not applicable to this vendor's scope." ∷ []), "")

-- A dict by identifier keeps the last of several overrides.
unfoldable pub override_for : String → List ControlOverride → Option ControlOverride
override_for control_id overrides =
    last? (select (λ (o : ControlOverride). o.control_id == control_id) overrides)

abbrev pub evaluated : ControlSpec → ControlStatus → String → String → EvaluatedControl
evaluated spec status evidence remediation = record {
  spec = spec;
  status = status;
  is_critical_gap = is_gap status && leb critical_gap_weight spec.weight;
  evidence = evidence;
  remediation = remediation;
}

unfoldable pub summarise : List EvaluatedControl → Summary
summarise results = record {
  total_controls = length results;
  compliant_count = count_where (λ (r : EvaluatedControl). is_met r.status) results;
  partial_count = count_where (λ (r : EvaluatedControl). is_partial r.status) results;
  gap_count = count_where (λ (r : EvaluatedControl). is_gap r.status) results;
  not_applicable_count = count_where (λ (r : EvaluatedControl). is_not_applicable r.status) results;
  critical_gap_count = count_where (λ (r : EvaluatedControl). r.is_critical_gap) results;
}

-- Of two rows the flagged one comes first, and the rest of the key decides between equals.
abbrev pub flagged_first : Bool → Bool → Bool → Bool
flagged_first true true rest = rest
flagged_first true false rest = true
flagged_first false true rest = false
flagged_first false false rest = rest

-- The comparison of the keys (not critical, not a gap, -weight).
abbrev pub is_ranked_before : EvaluatedControl → EvaluatedControl → Bool
is_ranked_before a b =
    flagged_first a.is_critical_gap b.is_critical_gap
      (flagged_first (is_gap a.status) (is_gap b.status) (ltb b.spec.weight a.spec.weight))

unfoldable pub rank_gaps : List EvaluatedControl → List EvaluatedControl
rank_gaps results =
    sort_with is_ranked_before
      (select (λ (r : EvaluatedControl). is_gap r.status || is_partial r.status) results)

-- The keys of the buckets: a framework and a domain.
abbrev pub same_domain : String × String → String × String → Bool
same_domain (f, d) (g, e) = f == g && d == e

pub record DomainRow (F : Type 0) : Type 0 where
  pub framework : String
  pub domain : String
  pub total : ℕ
  pub met : ℕ
  pub partial : ℕ
  pub gap : ℕ
  pub not_applicable : ℕ
  pub score : F

-- `random` gives `seeded_random("compliance-status", vendor_id, control_id).random()`.
module _ (fl : Floats) where
  open fl use {F, literal, of_int, add, sub, mul, div, lt, le, round2}

  -- The difference of two small integers is the same as a float.
  unfoldable pub generate_status : (String → String → F) → String → ControlSpec → ControlStatus
  generate_status random vendor_id spec =
      let roll = random vendor_id spec.control_id in
      let gap_bias = mul (sub (of_int spec.weight) (of_int 3)) (literal "0.02") in
      let p_met = sub (literal "0.60") gap_bias in
      let p_partial = literal "0.22" in
      let p_gap = add (literal "0.13") gap_bias in
      if lt roll p_met
      then ControlStatus.met
      else if lt roll (add p_met p_partial)
      then ControlStatus.partial
      else if lt roll (add (add p_met p_partial) p_gap)
      then ControlStatus.gap
      else ControlStatus.not_applicable

  -- One round of the loop of `evaluate_controls`.
  unfoldable pub evaluate_control :
      (String → String → F) → String → List ControlOverride → ControlSpec → EvaluatedControl
  unfolding override_for generate_status evidence_for
  evaluate_control random vendor_id overrides spec = elim (override_for spec.control_id overrides) [
    | some o ↦
        let narrative = evidence_for o.status spec in
        evaluated spec o.status (text_or o.evidence narrative.0) (text_or o.remediation narrative.1)
    | none ↦
        let status = generate_status random vendor_id spec in
        let narrative = evidence_for status spec in evaluated spec status narrative.0 narrative.1
  ]

  unfoldable pub evaluate_controls :
      (String → String → F)
      → String
      → String
      → List ControlOverride
      → Result (List EvaluatedControl)
  evaluate_controls random vendor_id framework overrides = do
    scope ← resolve_scope framework
    ok (map (evaluate_control random vendor_id overrides) scope)

  -- A control that is not applicable earns nothing here, and is left out of the sums.
  unfoldable pub status_credit : ControlStatus → F
  status_credit met = literal "1.0"
  status_credit partial = literal "0.5"
  status_credit gap = literal "0.0"
  status_credit not_applicable = literal "0.0"

  unfoldable pub earned_from : F → List EvaluatedControl → F
  earned_from sum [] = sum
  earned_from sum (r ∷ rs) =
      earned_from (add sum (mul (status_credit r.status) (of_int r.spec.weight))) rs

  unfoldable pub possible : List EvaluatedControl → ℕ
  possible [] = 0
  possible (r ∷ rs) = r.spec.weight + possible rs

  unfoldable pub score_of : List EvaluatedControl → F
  unfolding earned_from possible status_credit
  score_of [] = literal "100.0"
  score_of (r ∷ rs) =
      round2
        (div (mul (literal "100.0") (earned_from (of_int 0) (r ∷ rs))) (of_int (possible (r ∷ rs))))

  unfoldable pub compliance_score : List EvaluatedControl → F
  unfolding score_of
  compliance_score results =
      score_of (select (λ (r : EvaluatedControl). not (is_not_applicable r.status)) results)

  unfoldable pub status_from_score : F → String
  status_from_score score =
      if le (literal "85.0") score
      then "Compliant"
      else if le (literal "60.0") score
      then "Partially Compliant"
      else "Non-Compliant"

  framework_scores_of : List (String × List EvaluatedControl) → List (String × F)
  framework_scores_of [] = []
  framework_scores_of ((fw, rs) ∷ buckets) = (fw, compliance_score rs) ∷ framework_scores_of buckets

  unfoldable pub framework_score_breakdown : List EvaluatedControl → List (String × F)
  unfolding framework_scores_of
  framework_score_breakdown results =
      framework_scores_of (group_from ◌==◌ (λ (r : EvaluatedControl). r.spec.framework) results [])

  unfoldable pub domain_rows : List ((String × String) × List EvaluatedControl) → List (DomainRow F)
  domain_rows [] = []
  domain_rows (((framework, domain), rs) ∷ buckets) =
      record {
        framework = framework;
        domain = domain;
        total = length rs;
        met = count_where (λ (r : EvaluatedControl). is_met r.status) rs;
        partial = count_where (λ (r : EvaluatedControl). is_partial r.status) rs;
        gap = count_where (λ (r : EvaluatedControl). is_gap r.status) rs;
        not_applicable = count_where (λ (r : EvaluatedControl). is_not_applicable r.status) rs;
        score = compliance_score rs;
      }
      ∷ domain_rows buckets

  -- The comparison of the keys (score, -gap).
  abbrev pub is_worse : DomainRow F → DomainRow F → Bool
  is_worse a b = lt a.score b.score || not (lt b.score a.score) && ltb b.gap a.gap

  unfoldable pub domain_breakdown : List EvaluatedControl → List (DomainRow F)
  unfolding domain_rows
  domain_breakdown results = sort_with is_worse (
      domain_rows (
        group_from same_domain (λ (r : EvaluatedControl). (r.spec.framework, r.spec.domain)) results
          []))
