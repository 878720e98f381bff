-- ===== src/Compliance/Laws.antt =====
-- What an assessment stores, and how every request for one ends.
use sc_tpcrs.Prelude.{
  fstring, Option-cases, ◌+◌, ◌≤◌, String, ◌≡◌, refl, inl, inr, Bool, true, false, not, ◌&&◌, ◌||◌,
  List, [], ◌∷◌, map, ◌==◌, arith, length, select, count_where, one_of, All, leb, Bool-cases,
  Result, ok, err, Error, if◌then◌else◌,
}
use sc_tpcrs.Prelude.Floats.{Floats}
use sc_tpcrs.Jwt.{TokenPayload, require_role}
use sc_tpcrs.Audit.{Hashing}
use sc_tpcrs.Compliance.Spec.{ControlSpec, all_frameworks}
use sc_tpcrs.Compliance.Library.{library, all_controls_lem, controls_for_framework}
use sc_tpcrs.Compliance.Models.{
  ControlStatus, met, partial, gap, not_applicable, is_met, is_partial, is_gap, is_not_applicable,
  ControlOverride, Assessment, Db, World, Call, AssessmentRequest,
}
use sc_tpcrs.Compliance.Engine.{
  EvaluatedControl, critical_gap_weight, evaluate_control, evaluate_controls, resolve_scope,
  override_for,
}
use sc_tpcrs.Compliance.Service.{run_assessment, new_assessment, store_assessment}
use sc_tpcrs.Compliance.Router.{
  writers, unknown_framework, validate_framework, recorded, create_assessment,
}

-- The controls in scope, by a description of their own: the library whole, or the part of one framework.
abbrev pub scope_of : String → List ControlSpec
scope_of framework =
    if framework == "ALL"
    then library
    else select (λ (c : ControlSpec). c.framework == framework) library

-- The label is one that a request may name.
abbrev pub is_known : String → Bool
is_known framework = framework == "ALL" || one_of framework all_frameworks

or-right : (a b : Bool) → a ≡ false → (a || b) ≡ true → b ≡ true
or-right true b e h = cc
or-right false b e h = h

neither : (a b : Bool) → (not a && not b) ≡ not (a || b)
neither true b = refl
neither false b = refl

resolve_scope_known :
    (framework : String)
    → is_known framework ≡ true
    → resolve_scope framework ≡ ok (scope_of framework)
unfolding resolve_scope controls_for_framework
resolve_scope_known framework k = elim (Bool-cases (framework == "ALL")) [
  | inl all ↦ rw (all, all_controls_lem) refl
  | inr one ↦ rw (one, or-right (framework == "ALL") _ one k, all_controls_lem) refl
]

validate_framework_lem :
    (framework : String)
    → validate_framework framework
      ≡ (if is_known framework then ok tt else err (unknown_framework framework))
unfolding validate_framework
validate_framework_lem framework = elim (Bool-cases (is_known framework)) [
  | inl k ↦ rw (neither (framework == "ALL") (one_of framework all_frameworks), k) refl
  | inr u ↦ rw (neither (framework == "ALL") (one_of framework all_frameworks), u) refl
]

one_status :
    (s : ControlStatus)
    → (if is_met s then 1 else 0)
        + (if is_partial s then 1 else 0)
        + (if is_gap s then 1 else 0)
        + (if is_not_applicable s then 1 else 0)
      ≡ 1
one_status met = refl
one_status partial = refl
one_status gap = refl
one_status not_applicable = refl

-- Every row has one status, so the four counts add up.
pub counts_add_up :
    (rs : List EvaluatedControl)
    → count_where (λ (r : EvaluatedControl). is_met r.status) rs
        + count_where (λ (r : EvaluatedControl). is_partial r.status) rs
        + count_where (λ (r : EvaluatedControl). is_gap r.status) rs
        + count_where (λ (r : EvaluatedControl). is_not_applicable r.status) rs
      ≡ length rs
counts_add_up [] = refl
counts_add_up (r ∷ rs) = omega (arith, one_status r.status, counts_add_up rs)

-- A gap is critical where the control's weight is at least four.
abbrev pub IsMarked : EvaluatedControl → Type 0
IsMarked r = r.is_critical_gap ≡ (is_gap r.status && leb critical_gap_weight r.spec.weight)

pub gaps_bound :
    (rs : List EvaluatedControl)
    → All IsMarked rs
    → count_where (λ (r : EvaluatedControl). r.is_critical_gap) rs
      ≤ count_where (λ (r : EvaluatedControl). is_gap r.status) rs
gaps_bound [] h = omega arith
gaps_bound (r ∷ rs) h = ground (arith, h.0, gaps_bound rs h.1)

pub count-critical :
    (rs : List EvaluatedControl)
    → All IsMarked rs
    → count_where (λ (r : EvaluatedControl). r.is_critical_gap) rs
      ≡ count_where
          (λ (r : EvaluatedControl). is_gap r.status && leb critical_gap_weight r.spec.weight)
          rs
count-critical [] h = refl
count-critical (r ∷ rs) h = rw h.0 (omega (arith, count-critical rs h.1))

pub evaluate_control-IsMarked :
    (fl : Floats) (random : String → String → fl.F) (vendor_id : String)
    (overrides : List ControlOverride) (spec : ControlSpec)
    → IsMarked (evaluate_control fl random vendor_id overrides spec)
unfolding evaluate_control
evaluate_control-IsMarked fl random vendor_id overrides spec =
    elim (Option-cases (override_for spec.control_id overrides)) [
      | inl drawn ↦ rw (drawn, evaluate_control) refl
      | inr (o, given) ↦ rw (given, evaluate_control) refl
    ]

abbrev pub no_permission : String → Error
no_permission role =
    Error.http 403 (fstring ("Role '" ∷ role ∷ "' is not permitted to perform this action" ∷ []))

module _ (fl : Floats) (random : String → String → fl.F) where
  -- The results of an assessment: each control in scope is evaluated by itself.
  abbrev pub results_of : AssessmentRequest → List EvaluatedControl
  results_of body =
      map (evaluate_control fl random body.vendor_id body.overrides) (scope_of body.framework)

  evaluate_controls_known :
      (body : AssessmentRequest)
      → is_known body.framework ≡ true
      → evaluate_controls fl random body.vendor_id body.framework body.overrides
        ≡ ok (results_of body)
  unfolding evaluate_controls
  evaluate_controls_known body k = rw (resolve_scope_known body.framework k) refl

  abbrev pub assessment_of : Call → TokenPayload → AssessmentRequest → Assessment fl.F
  assessment_of call user body =
      new_assessment fl call body.vendor_id body.framework user.sub (results_of body)

  abbrev pub stored : Call → TokenPayload → AssessmentRequest → Db fl.F → Db fl.F
  stored call user body db =
      store_assessment fl call (assessment_of call user body) (results_of body) db

  pub create_assessment_known :
      (hashing : Hashing) (call : Call) (user : TokenPayload) (body : AssessmentRequest)
      (w : World fl.F)
      → one_of user.role writers ≡ true
      → is_known body.framework ≡ true
      → create_assessment fl hashing random call user body w
        ≡ ok (
          assessment_of call user body,
          recorded fl hashing call user.sub
              (assessment_of call user body)
              (stored call user body w.db)
              w.bus,
        )
  unfolding create_assessment require_role run_assessment
  create_assessment_known hashing call user body w role known =
      rw (role, validate_framework_lem body.framework, known, evaluate_controls_known body known)
        refl

  -- The three ends of a request for an assessment.
  pub data AssessmentOutcome (hashing : Hashing) (call : Call) (user : TokenPayload)
      (body : AssessmentRequest) (w : World fl.F)
      : Result (Assessment fl.F × World fl.F) → Type 0 where
    forbidden :
        {r : Result (Assessment fl.F × World fl.F)}
        → one_of user.role writers ≡ false
        → r ≡ err (no_permission user.role)
        → AssessmentOutcome hashing call user body w r
    unprocessable :
        {r : Result (Assessment fl.F × World fl.F)}
        → one_of user.role writers ≡ true
        → is_known body.framework ≡ false
        → r ≡ err (unknown_framework body.framework)
        → AssessmentOutcome hashing call user body w r
    created :
        {r : Result (Assessment fl.F × World fl.F)}
        → one_of user.role writers ≡ true
        → is_known body.framework ≡ true
        → r
          ≡ ok (
            assessment_of call user body,
            recorded fl hashing call user.sub
                (assessment_of call user body)
                (stored call user body w.db)
                w.bus,
          )
        → AssessmentOutcome hashing call user body w r

  -- A request for an assessment ends in one of three ways: 403 for a role that may not write, 422
  -- for an unknown framework, and else the assessment of every control in scope. No error of the
  -- engine gets out.
  pub create_assessment_outcome :
      (hashing : Hashing) (call : Call) (user : TokenPayload) (body : AssessmentRequest)
      (w : World fl.F)
      → AssessmentOutcome hashing call user body w
          (create_assessment fl hashing random call user body w)
  unfolding create_assessment require_role run_assessment
  create_assessment_outcome hashing call user body w =
      elim (Bool-cases (one_of user.role writers)) [
        | inr no_role ↦ forbidden no_role (rw no_role refl)
        | inl role ↦ elim (Bool-cases (is_known body.framework)) [
          | inr unknown ↦
              unprocessable role unknown
                (rw (role, validate_framework_lem body.framework, unknown) refl)
          | inl known ↦ created role known (
              rw
                (
                  role,
                  validate_framework_lem body.framework,
                  known,
                  evaluate_controls_known body known,
                )
                refl)
        ]
      ]
