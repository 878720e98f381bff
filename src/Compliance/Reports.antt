-- ===== src/Compliance/Reports.antt =====
-- The report that is made of a stored assessment later, and the order of its gaps.
use sc_tpcrs.Prelude.{
  ℕ, String, ◌≡◌, refl, sym, subst, Bool, true, false, some, List, [], ◌∷◌, ◌++◌, ◌==◌, arith, All,
  find_first, ltb, ok, eq_refl,
}
use sc_tpcrs.Prelude.Floats.{Floats}
use sc_tpcrs.Prelude.Order.{IsSorted, sort_with-IsSorted}
use sc_tpcrs.Jwt.{TokenPayload}
use sc_tpcrs.Audit.{Hashing}
use sc_tpcrs.Compliance.Models.{is_gap, Assessment, ControlResult, World, Call, AssessmentRequest}
use sc_tpcrs.Compliance.Engine.{domain_breakdown, rank_gaps, flagged_first}
use sc_tpcrs.Compliance.Service.{
  new_assessment, store_assessment, result_rows, control_results_for, get_assessment, audit,
}
use sc_tpcrs.Compliance.Reporting.{Report, build_report, is_prior, prioritise_gaps}
use sc_tpcrs.Compliance.Router.{recorded, create_assessment, regulatory_report}
use sc_tpcrs.Compliance.Agreement.{
  AreRowsOf, result_rows-AreRowsOf, prioritise_gaps-rank_gaps, domain_breakdown_lem,
}
use sc_tpcrs.Compliance.Stored.{IsNew, answer_of, created-ok, control_results_for-stored}
use sc_tpcrs.Compliance.Laws.{results_of, assessment_of, create_assessment_outcome}

find_first-last :
    {A : Type 0} (p : A → Bool) (xs : List A) (y : A)
    → All (λ x. p x ≡ false) xs
    → p y ≡ true
    → find_first p (xs ++ y ∷ []) ≡ some y
find_first-last p [] y h e = rw e refl
find_first-last p (x ∷ xs) y h e = rw h.0 (find_first-last p xs y h.1 e)

flagged_first-apart :
    (a b : Bool) {r s : Bool}
    → flagged_first a b r ≡ true
    → (r ≡ true → s ≡ false)
    → flagged_first b a s ≡ false
flagged_first-apart true true h k = k h
flagged_first-apart true false h k = refl
flagged_first-apart false true h k = cc
flagged_first-apart false false h k = k h

flagged_first-chain :
    (a b c : Bool) {r s t : Bool}
    → flagged_first b a r ≡ false
    → flagged_first c b s ≡ false
    → (r ≡ false → s ≡ false → t ≡ false)
    → flagged_first c a t ≡ false
flagged_first-chain true true true h k l = l h k
flagged_first-chain true true false h k l = refl
flagged_first-chain true false true h k l = cc
flagged_first-chain true false false h k l = refl
flagged_first-chain false true true h k l = cc
flagged_first-chain false true false h k l = cc
flagged_first-chain false false true h k l = cc
flagged_first-chain false false false h k l = l h k

-- The gaps of a report stand with critical ones first, gaps before partial ones, heavier before lighter.
prioritise_gaps-IsSorted : (rows : List ControlResult) → IsSorted is_prior (prioritise_gaps rows)
unfolding prioritise_gaps
prioritise_gaps-IsSorted rows = sort_with-IsSorted is_prior apart chain _
  where
    apart : (x y : ControlResult) → is_prior x y ≡ true → is_prior y x ≡ false
    apart x y h = flagged_first-apart x.is_critical_gap y.is_critical_gap h (λ k.
        flagged_first-apart (is_gap x.status) (is_gap y.status) k
          (λ (e : ltb y.weight x.weight ≡ true). ground arith))

    chain :
        (x y z : ControlResult) → is_prior y x ≡ false → is_prior z y ≡ false → is_prior z x ≡ false
    chain x y z h k =
        flagged_first-chain x.is_critical_gap y.is_critical_gap z.is_critical_gap h k (λ h' k'.
          flagged_first-chain (is_gap x.status) (is_gap y.status) (is_gap z.status) h' k'
            (λ (e : ltb x.weight y.weight ≡ false) (g : ltb y.weight z.weight ≡ false).
              ground arith))

module _ (fl : Floats) (random : String → String → fl.F) where
  -- The report that is asked for later has the engine's own analysis of the results.
  pub record IsReported (body : AssessmentRequest) (a : Assessment fl.F) (r : Report fl.F)
      : Type 0 where
    pub assessment : r.assessment ≡ a
    pub breakdown : r.framework_breakdown ≡ domain_breakdown fl (results_of fl random body)
    pub register : AreRowsOf (results_of fl random body) r.control_register
    pub gaps : AreRowsOf (rank_gaps (results_of fl random body)) r.prioritised_gaps
    pub ranked : IsSorted is_prior r.prioritised_gaps

  regulatory_report-answer :
      (date : ℕ → String) (fixed2 : fl.F → String) (now : ℕ) (hashing : Hashing) (call : Call)
      (user : TokenPayload) (body : AssessmentRequest) (w : World fl.F)
      → IsNew call.new_id w.db
      → regulatory_report fl date fixed2 now call.new_id
          ((answer_of fl random hashing call user body w).1).db
        ≡ ok (
            build_report fl date fixed2 now
              (assessment_of fl random call user body)
              (result_rows call call.new_id body.vendor_id 0 (results_of fl random body)))
  unfolding regulatory_report get_assessment recorded audit store_assessment new_assessment
      control_results_for
  regulatory_report-answer date fixed2 now hashing call user body w new =
      rw
        (
          find_first-last (λ (x : Assessment fl.F). x.id == call.new_id) w.db.assessments
              (assessment_of fl random call user body) new.of_assessments (eq_refl call.new_id),
          control_results_for-stored fl random call user body w.db new,
        )
        refl

  -- After an assessment under a new identifier, the report that is built from the stored rows
  -- succeeds and agrees with the engine's own analysis of the results: the assessment, the domain
  -- breakdown, the register and the ranked gaps, which are sorted by the report's own comparison.
  pub regulatory_report-IsReported :
      (date : ℕ → String) (fixed2 : fl.F → String) (now : ℕ) (hashing : Hashing) (call : Call)
      (user : TokenPayload) (body : AssessmentRequest) (w w' : World fl.F) (a : Assessment fl.F)
      → IsNew call.new_id w.db
      → create_assessment fl hashing random call user body w ≡ ok (a, w')
      → (r : Report fl.F) × (regulatory_report fl date fixed2 now a.id w'.db ≡ ok r)
        × IsReported body a r
  unfolding recorded audit control_results_for regulatory_report get_assessment new_assessment
      build_report
  regulatory_report-IsReported date fixed2 now hashing call user body w w' a new h =
      let rows : AreRowsOf (results_of fl random body)
          (result_rows call call.new_id body.vendor_id 0 (results_of fl random body)) =
        result_rows-AreRowsOf call call.new_id body.vendor_id 0 (results_of fl random body) in
      subst
        (λ (p : Assessment fl.F × World fl.F).
          (r : Report fl.F) × (regulatory_report fl date fixed2 now (p.0).id (p.1).db ≡ ok r)
          × IsReported body p.0 r)
        (created-ok fl random hashing call user body w (a, w') _
          (create_assessment_outcome fl random hashing call user body w) h)
        (
          build_report fl date fixed2 now (assessment_of fl random call user body)
              (result_rows call call.new_id body.vendor_id 0 (results_of fl random body)),
          regulatory_report-answer date fixed2 now hashing call user body w new,
          record {
            assessment = refl;
            breakdown = sym (domain_breakdown_lem fl _ _ rows);
            register = rows;
            gaps = prioritise_gaps-rank_gaps _ _ rows;
            ranked =
                prioritise_gaps-IsSorted
                  (result_rows call call.new_id body.vendor_id 0 (results_of fl random body));
          },
        )
