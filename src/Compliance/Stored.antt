-- ===== src/Compliance/Stored.antt =====
-- The rows that an assessment leaves in the database.
use sc_tpcrs.Prelude.{
  ℕ, ◌+◌, ◌≤◌, String, ◌≡◌, refl, sym, ap, ◌∙◌, subst, Bool, false, ◌&&◌, List, [], ◌∷◌, ◌++◌, map,
  ◌==◌, length, select, select-append, count_where, All, leb, Result, ok, ok-injective, eq_refl,
}
use sc_tpcrs.Prelude.Floats.{Floats}
use sc_tpcrs.Prelude.Matched.{Matched-length, count-Matched}
use sc_tpcrs.Jwt.{TokenPayload}
use sc_tpcrs.Audit.{Hashing}
use sc_tpcrs.Compliance.Models.{
  is_met, is_partial, is_gap, Assessment, ControlResult, Db, World, Call, AssessmentRequest,
}
use sc_tpcrs.Compliance.Engine.{EvaluatedControl, critical_gap_weight, summarise}
use sc_tpcrs.Compliance.Service.{
  new_assessment, store_assessment, result_row, result_rows, control_results_for, audit,
}
use sc_tpcrs.Compliance.Router.{recorded, create_assessment}
use sc_tpcrs.Compliance.Agreement.{IsRowOf, AreRowsOf, by_status, result_rows-AreRowsOf}
use sc_tpcrs.Compliance.Laws.{
  counts_add_up, gaps_bound, IsMarked, count-critical, evaluate_control-IsMarked, results_of,
  assessment_of, stored, AssessmentOutcome, forbidden, unprocessable, created,
  create_assessment_outcome,
}

-- No row has the identifier yet.
pub record IsNew {F : Type 0} (id : String) (db : Db F) : Type 0 where
  pub of_results : All (λ (r : ControlResult). (r.assessment_id == id) ≡ false) db.control_results
  pub of_assessments : All (λ (a : Assessment F). (a.id == id) ≡ false) db.assessments

select-none :
    {A : Type 0} (p : A → Bool) (xs : List A) → All (λ x. p x ≡ false) xs → select p xs ≡ []
select-none p [] h = refl
select-none p (x ∷ xs) h = rw h.0 (select-none p xs h.1)

select-own :
    (call : Call) (id vendor_id : String) (n : ℕ) (rs : List EvaluatedControl)
    → select (λ (r : ControlResult). r.assessment_id == id) (result_rows call id vendor_id n rs)
      ≡ result_rows call id vendor_id n rs
unfolding result_rows result_row
select-own call id vendor_id n [] = refl
select-own call id vendor_id n (r ∷ rs) =
    rw (eq_refl id)
      (ap (λ l. result_row call id vendor_id n r ∷ l) (select-own call id vendor_id (n + 1) rs))

-- The stored counts are those of the stored rows, and agree among themselves.
pub record IsConsistent {F : Type 0} (a : Assessment F) (results : List EvaluatedControl)
    (register : List ControlResult) : Type 0 where
  pub rows : AreRowsOf results register
  pub total : a.total_controls ≡ length register
  pub compliant : a.compliant_count ≡ count_where (λ (r : ControlResult). is_met r.status) register
  pub partial : a.partial_count ≡ count_where (λ (r : ControlResult). is_partial r.status) register
  pub gap : a.gap_count ≡ count_where (λ (r : ControlResult). is_gap r.status) register
  pub critical :
      a.critical_gap_count
      ≡ count_where
          (λ (r : ControlResult). is_gap r.status && leb critical_gap_weight r.weight)
          register
  pub within : a.critical_gap_count ≤ a.gap_count
  pub summed :
      a.compliant_count + a.partial_count + a.gap_count + (a.summary).not_applicable_count
      ≡ a.total_controls

map-All :
    {A B : Type 0} (P : B → Type 0) (f : A → B)
    → ((x : A) → P (f x))
    → (xs : List A) → All P (map f xs)
map-All P f h [] = tt
map-All P f h (x ∷ xs) = (h x, map-All P f h xs)

module _ (fl : Floats) (random : String → String → fl.F) where
  new_assessment-IsConsistent :
      (call : Call) (user : TokenPayload) (body : AssessmentRequest) (register : List ControlResult)
      → AreRowsOf (results_of fl random body) register
      → IsConsistent (assessment_of fl random call user body) (results_of fl random body) register
  unfolding new_assessment summarise
  new_assessment-IsConsistent call user body register h =
      let results = results_of fl random body in
      let marked : All IsMarked results =
        map-All IsMarked _ (evaluate_control-IsMarked fl random body.vendor_id body.overrides) _ in
      record {
        rows = h;
        total = Matched-length IsRowOf results register h;
        compliant = count-Matched IsRowOf _ _ (by_status is_met) results register h;
        partial = count-Matched IsRowOf _ _ (by_status is_partial) results register h;
        gap = count-Matched IsRowOf _ _ (by_status is_gap) results register h;
        critical =
            count-critical results marked
            ∙ count-Matched IsRowOf _ _ (λ x y (r : IsRowOf x y). rw (r.status, r.weight) refl)
                results register h;
        within = gaps_bound results marked;
        summed = counts_add_up results;
      }

  pub control_results_for-stored :
      (call : Call) (user : TokenPayload) (body : AssessmentRequest) (db : Db fl.F)
      → IsNew call.new_id db
      → control_results_for fl call.new_id (stored fl random call user body db)
        ≡ result_rows call call.new_id body.vendor_id 0 (results_of fl random body)
  unfolding control_results_for store_assessment new_assessment
  control_results_for-stored call user body db new =
      let is_own = λ (r : ControlResult). r.assessment_id == call.new_id in
      select-append is_own db.control_results _
      ∙ ap
          (λ l.
            l
            ++ select is_own
                (result_rows call call.new_id body.vendor_id 0 (results_of fl random body)))
          (select-none is_own db.control_results new.of_results)
      ∙ select-own call call.new_id body.vendor_id 0 (results_of fl random body)

  -- The answer to a request that succeeds, and the world after it.
  abbrev pub answer_of :
      Hashing → Call → TokenPayload → AssessmentRequest → World fl.F → Assessment fl.F × World fl.F
  answer_of hashing call user body w = (
    assessment_of fl random call user body,
    recorded fl hashing call user.sub (assessment_of fl random call user body)
        (stored fl random call user body w.db) w.bus,
  )

  pub created-ok :
      (hashing : Hashing) (call : Call) (user : TokenPayload) (body : AssessmentRequest)
      (w : World fl.F) (p : Assessment fl.F × World fl.F)
      (r : Result (Assessment fl.F × World fl.F))
      → AssessmentOutcome fl random hashing call user body w r
      → r ≡ ok p
      → answer_of hashing call user body w ≡ p
  created-ok hashing call user body w p r (forbidden role e) q = cc (e, q)
  created-ok hashing call user body w p r (unprocessable role unknown e) q = cc (e, q)
  created-ok hashing call user body w p r (created role known e) q = ok-injective (sym e ∙ q)

  -- A successful assessment under a new identifier leaves one row for each control in scope, which
  -- holds the result, and the counts that are stored with it are those of its rows: they add up to
  -- the total, and critical gaps are the gaps of a weight of four or more.
  pub create_assessment-IsConsistent :
      (hashing : Hashing) (call : Call) (user : TokenPayload) (body : AssessmentRequest)
      (w w' : World fl.F) (a : Assessment fl.F)
      → IsNew call.new_id w.db
      → create_assessment fl hashing random call user body w ≡ ok (a, w')
      → IsConsistent a (results_of fl random body) (control_results_for fl a.id w'.db)
  unfolding recorded audit control_results_for new_assessment
  create_assessment-IsConsistent hashing call user body w w' a new h =
      subst
        (λ (p : Assessment fl.F × World fl.F).
          IsConsistent p.0 (results_of fl random body) (control_results_for fl (p.0).id (p.1).db))
        (created-ok hashing call user body w (a, w') _
          (create_assessment_outcome fl random hashing call user body w) h)
        (rw (control_results_for-stored call user body w.db new) (
          new_assessment-IsConsistent call user body _
            (result_rows-AreRowsOf call call.new_id body.vendor_id 0 (results_of fl random body))))
