-- ===== src/Compliance/Agreement.antt =====
-- The report of stored rows against the engine's analysis of the results that the rows were made of: the two
-- modules compute the same by code of their own.
use sc_tpcrs.Prelude.{ℕ, ◌+◌, String, ◌≡◌, refl, ap, Bool, not, ◌||◌, List, [], ◌∷◌}
use sc_tpcrs.Prelude.Floats.{Floats}
use sc_tpcrs.Prelude.Order.{sort_with}
use sc_tpcrs.Prelude.Matched.{
  Matched, Matched-length, select-Matched, count-Matched, sort_with-Matched, SameBuckets,
  group_from-SameBuckets,
}
use sc_tpcrs.Compliance.Models.{
  ControlStatus, ControlResult, Call, is_met, is_partial, is_gap, is_not_applicable,
}
use sc_tpcrs.Compliance.Engine.{
  EvaluatedControl, DomainRow, same_domain, is_ranked_before, rank_gaps, compliance_score,
  domain_rows, domain_breakdown, flagged_first,
}
use sc_tpcrs.Compliance.Engine
use sc_tpcrs.Compliance.Service.{result_row, result_rows}
use sc_tpcrs.Compliance.Reporting
use sc_tpcrs.Compliance.Reporting.{
  is_prior, prioritise_gaps, rows_of_buckets, domain_breakdown_from_rows,
}

-- The row holds the result.
pub record IsRowOf (r : EvaluatedControl) (row : ControlResult) : Type 0 where
  pub control_id : r.spec.control_id ≡ row.control_id
  pub framework : r.spec.framework ≡ row.framework
  pub reference : r.spec.reference ≡ row.reference
  pub domain : r.spec.domain ≡ row.domain
  pub title : r.spec.title ≡ row.title
  pub weight : r.spec.weight ≡ row.weight
  pub status : r.status ≡ row.status
  pub is_critical_gap : r.is_critical_gap ≡ row.is_critical_gap
  pub evidence : r.evidence ≡ row.evidence
  pub remediation : r.remediation ≡ row.remediation

abbrev pub AreRowsOf : List EvaluatedControl → List ControlResult → Type 0
AreRowsOf = Matched IsRowOf

pub result_rows-AreRowsOf :
    (call : Call) (assessment_id vendor_id : String) (n : ℕ) (rs : List EvaluatedControl)
    → AreRowsOf rs (result_rows call assessment_id vendor_id n rs)
unfolding result_rows result_row
result_rows-AreRowsOf call assessment_id vendor_id n [] = tt
result_rows-AreRowsOf call assessment_id vendor_id n (r ∷ rs) = (
  record {
    control_id = refl;
    framework = refl;
    reference = refl;
    domain = refl;
    title = refl;
    weight = refl;
    status = refl;
    is_critical_gap = refl;
    evidence = refl;
    remediation = refl;
  },
  result_rows-AreRowsOf call assessment_id vendor_id (n + 1) rs,
)

-- A test of the status alone.
pub by_status :
    (test : ControlStatus → Bool) (r : EvaluatedControl) (row : ControlResult)
    → IsRowOf r row
    → test r.status ≡ test row.status
by_status test r row h = ap test h.status

-- The gaps of the report are the engine's, in the same order.
pub prioritise_gaps-rank_gaps :
    (rs : List EvaluatedControl) (rows : List ControlResult)
    → AreRowsOf rs rows
    → AreRowsOf (rank_gaps rs) (prioritise_gaps rows)
unfolding rank_gaps prioritise_gaps
prioritise_gaps-rank_gaps rs rows h =
    sort_with-Matched IsRowOf is_ranked_before is_prior (λ x x' y y' r r'. ranked x x' y y' r r') _
      _ (select-Matched IsRowOf _ _ (by_status (λ s. is_gap s || is_partial s)) rs rows h)
  where
    ranked :
        (x x' : EvaluatedControl) (y y' : ControlResult)
        → IsRowOf x y
        → IsRowOf x' y'
        → is_ranked_before x x' ≡ is_prior y y'
    ranked x x' y y' r r' =
        rw (r.is_critical_gap, r'.is_critical_gap, r.status, r'.status, r.weight, r'.weight) refl

module _ (fl : Floats) where
  open fl use {F, add, mul, of_int}

  credit_lem : (s : ControlStatus) → Engine.status_credit fl s ≡ Reporting.credit fl s
  unfolding Engine.status_credit Reporting.credit
  credit_lem ControlStatus.met = refl
  credit_lem ControlStatus.partial = refl
  credit_lem ControlStatus.gap = refl
  credit_lem ControlStatus.not_applicable = refl

  earned-rows :
      (sum : F) (rs : List EvaluatedControl) (rows : List ControlResult)
      → AreRowsOf rs rows
      → Engine.earned_from fl sum rs ≡ Reporting.earned_from fl sum rows
  unfolding Engine.earned_from Reporting.earned_from
  earned-rows sum [] [] h = refl
  earned-rows sum [] (y ∷ ys) h = absurd h
  earned-rows sum (x ∷ xs) [] h = absurd h
  earned-rows sum (x ∷ xs) (y ∷ ys) h =
      rw ((h.0).status, (h.0).weight, credit_lem y.status)
        (earned-rows (add sum (mul (Reporting.credit fl y.status) (of_int y.weight))) xs ys h.1)

  possible-rows :
      (rs : List EvaluatedControl) (rows : List ControlResult)
      → AreRowsOf rs rows
      → Engine.possible fl rs ≡ Reporting.possible fl rows
  unfolding Engine.possible Reporting.possible
  possible-rows [] [] h = refl
  possible-rows [] (y ∷ ys) h = absurd h
  possible-rows (x ∷ xs) [] h = absurd h
  possible-rows (x ∷ xs) (y ∷ ys) h =
      rw (h.0).weight (ap (λ n. y.weight + n) (possible-rows xs ys h.1))

  score-rows :
      (rs : List EvaluatedControl) (rows : List ControlResult)
      → AreRowsOf rs rows
      → Engine.score_of fl rs ≡ Reporting.applicable_score fl rows
  unfolding Engine.score_of Reporting.applicable_score
  score-rows [] [] h = refl
  score-rows [] (y ∷ ys) h = absurd h
  score-rows (x ∷ xs) [] h = absurd h
  score-rows (x ∷ xs) (y ∷ ys) h =
      cc (earned-rows (of_int 0) (x ∷ xs) (y ∷ ys) h, possible-rows (x ∷ xs) (y ∷ ys) h)

  domain_rows-rows :
      (us : List ((String × String) × List EvaluatedControl))
      (vs : List ((String × String) × List ControlResult))
      → SameBuckets same_domain IsRowOf us vs
      → domain_rows fl us ≡ rows_of_buckets fl vs
  unfolding domain_rows rows_of_buckets compliance_score
  domain_rows-rows [] [] h = refl
  domain_rows-rows [] (v ∷ vs) h = absurd h
  domain_rows-rows (u ∷ us) [] h = absurd h
  domain_rows-rows (((f, d), rs) ∷ us) (((g, e), rows) ∷ vs) h =
      let here = h.0 in
      cc (
        here.0,
        Matched-length IsRowOf rs rows here.1,
        count-Matched IsRowOf _ _ (by_status is_met) rs rows here.1,
        count-Matched IsRowOf _ _ (by_status is_partial) rs rows here.1,
        count-Matched IsRowOf _ _ (by_status is_gap) rs rows here.1,
        count-Matched IsRowOf _ _ (by_status is_not_applicable) rs rows here.1,
        score-rows _ _ (
            select-Matched IsRowOf _ _ (by_status (λ s. not (is_not_applicable s))) rs rows here.1),
        domain_rows-rows us vs h.1,
      )

  -- The breakdown of the report is the engine's.
  pub domain_breakdown_lem :
      (rs : List EvaluatedControl) (rows : List ControlResult)
      → AreRowsOf rs rows
      → domain_breakdown fl rs ≡ domain_breakdown_from_rows fl rows
  unfolding domain_breakdown domain_breakdown_from_rows
  domain_breakdown_lem rs rows h = ap (sort_with _) (
      domain_rows-rows _ _ (
        group_from-SameBuckets same_domain IsRowOf _ _ (λ x y r. cc (r.framework, r.domain)) rs rows
          [] [] h tt))
