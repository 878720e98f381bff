-- ===== src/Vendor/Laws.antt =====
-- Laws of the tables of vendor-service: lifecycle stages, tiers, and the question bank.
use sc_tpcrs.Prelude.{
  ℕ, ◌+◌, ◌≤◌, String, ◌≡◌, refl, sym, ◌∙◌, ap, inl, inr, Bool, true, false, ◌||◌, some, List, [],
  ◌∷◌, map, ◌==◌, arith, All, length, one_of, one_of-All, Bool-cases, ltb, nat_eq, nat_eq_iff,
  subst, Result, ok, err, bind-ok, raise_if-ok, or_raise-ok, zero_padded, if◌then◌else◌, ◌⊎◌,
}
use mathlib.Core.Option.{some-injective}
use sc_tpcrs.Prelude.Value.{Value}
use sc_tpcrs.Prelude.Distinct.{Distinct, all_distinct-Distinct}
use sc_tpcrs.Vendor.Lifecycle.{states, allowed_transitions, validate_transition}
use sc_tpcrs.Vendor.Tiering.{order, order_of, dimension, reverse, max, compute_tier}
use sc_tpcrs.Vendor.QuestionBank.{Question, questions_for_tier}

-- The place of a state on the way from `INITIATED` to a terminal state.
abbrev pub stage : String → ℕ
stage s =
    if s == "INITIATED"
    then 0
    else if s == "QUESTIONNAIRE_SENT"
    then 1
    else if s == "QUESTIONNAIRE_COMPLETED"
    then 2
    else if s == "ASSESSMENT_IN_PROGRESS"
    then 3
    else 4

abbrev open_states : List String
open_states =
    "INITIATED" ∷ "QUESTIONNAIRE_SENT" ∷ "QUESTIONNAIRE_COMPLETED" ∷ "ASSESSMENT_IN_PROGRESS" ∷ []

-- From an open state, the next ones are known states and one stage on.
abbrev Onward : String → Type 0
Onward current =
    All (λ target. (one_of target states ≡ true) × (stage target ≡ stage current + 1))
      (allowed_transitions current)

stage_table : All Onward open_states
unfolding allowed_transitions
stage_table = (
  ((refl, refl), tt),
  (((refl, refl), tt), (((refl, refl), tt), (((refl, refl), ((refl, refl), tt)), tt))),
)

closed_table :
    (current : String) → one_of current open_states ≡ false → allowed_transitions current ≡ []
unfolding allowed_transitions
closed_table current =
    table (current == "INITIATED") (current == "QUESTIONNAIRE_SENT")
      (current == "QUESTIONNAIRE_COMPLETED") (current == "ASSESSMENT_IN_PROGRESS") _ _ _ _
  where
    table :
        (a b c d : Bool) (k l m n : List String)
        → (a || (b || (c || (d || false)))) ≡ false
        → (if a then k else if b then l else if c then m else if d then n else []) ≡ []
    table false false false false k l m n h = refl
    table true b c d k l m n h = cc
    table false true c d k l m n h = cc
    table false false true d k l m n h = cc
    table false false false true k l m n h = cc

-- A transition that is accepted leads to a known state one stage further on, so that no vendor
-- comes back to a state.
pub validate_transition_onward :
    (current target : String)
    → validate_transition current target ≡ ok tt
    → (one_of target states ≡ true) × (stage target ≡ stage current + 1)
unfolding validate_transition
validate_transition_onward current target h = elim (Bool-cases (one_of current open_states)) [
  | inl known ↦
      one_of-All (λ t. (one_of t states ≡ true) × (stage t ≡ stage current + 1)) target
        (allowed_transitions current) (one_of-All Onward current open_states stage_table known)
        allowed
  | inr unknown ↦ cc (ap (one_of target) (closed_table current unknown), allowed)
]
  where
    allowed : one_of target (allowed_transitions current) ≡ true
    allowed = ground (arith, raise_if-ok _ _ h)

abbrev pub tiers : List String
tiers = "Critical" ∷ "High" ∷ "Medium" ∷ "Low" ∷ []

-- The number of questions of a tier, as the module's documentation gives it.
abbrev pub documented : String → ℕ
documented tier =
    if tier == "Critical"
    then 36
    else if tier == "High"
    then 24
    else if tier == "Medium"
    then 18
    else 12

abbrev questions_of : Result (List Question) → List Question
questions_of (ok questions) = questions
questions_of (err e) = []

abbrev codes : List Question → List String
codes = map (λ (q : Question). q.code)

pub record IsAsked (tier : String) : Type 0 where
  pub questions : List Question
  pub asked : questions_for_tier tier ≡ ok questions
  pub distinct_codes : Distinct (codes questions)
  pub documented_count : length questions ≡ documented tier

-- For each of the four tiers there are questions, their codes are all different, and there are as
-- many as the documentation says: 36, 24, 18 and 12.
pub questions_for_tier-IsAsked : (tier : String) → one_of tier tiers ≡ true → IsAsked tier
unfolding questions_for_tier zero_padded
questions_for_tier-IsAsked tier known =
    one_of-All IsAsked tier tiers
      (
        record {
          questions = questions_of (questions_for_tier "Critical");
          asked = refl;
          distinct_codes =
              all_distinct-Distinct (codes (questions_of (questions_for_tier "Critical"))) refl;
          documented_count = refl;
        },
        (
          record {
            questions = questions_of (questions_for_tier "High");
            asked = refl;
            distinct_codes =
                all_distinct-Distinct (codes (questions_of (questions_for_tier "High"))) refl;
            documented_count = refl;
          },
          (
            record {
              questions = questions_of (questions_for_tier "Medium");
              asked = refl;
              distinct_codes =
                  all_distinct-Distinct (codes (questions_of (questions_for_tier "Medium"))) refl;
              documented_count = refl;
            },
            (
              record {
                questions = questions_of (questions_for_tier "Low");
                asked = refl;
                distinct_codes =
                    all_distinct-Distinct (codes (questions_of (questions_for_tier "Low"))) refl;
                documented_count = refl;
              },
              tt,
            ),
          ),
        ),
      )
      known

order-reverse : (rank : ℕ) (tier : String) → reverse rank ≡ some tier → order tier ≡ some rank
unfolding reverse order
order-reverse rank tier h = elim (Bool-cases (nat_eq rank 0)) [
  | inl e0 ↦
      subst (λ r. order tier ≡ some r) (sym ((nat_eq_iff rank 0).0 e0))
        (subst (λ t. order t ≡ some 0) (some-injective "Low" tier (rw e0 at h)) refl)
  | inr n0 ↦ elim (Bool-cases (nat_eq rank 1)) [
    | inl e1 ↦
        subst (λ r. order tier ≡ some r) (sym ((nat_eq_iff rank 1).0 e1))
          (subst (λ t. order t ≡ some 1) (some-injective "Medium" tier (rw (n0, e1) at h)) refl)
    | inr n1 ↦ elim (Bool-cases (nat_eq rank 2)) [
      | inl e2 ↦
          subst (λ r. order tier ≡ some r) (sym ((nat_eq_iff rank 2).0 e2))
            (subst (λ t. order t ≡ some 2) (some-injective "High" tier (rw (n0, n1, e2) at h)) refl)
      | inr n2 ↦ elim (Bool-cases (nat_eq rank 3)) [
        | inl e3 ↦
            subst (λ r. order tier ≡ some r) (sym ((nat_eq_iff rank 3).0 e3))
              (subst (λ t. order t ≡ some 3)
                (some-injective "Critical" tier (rw (n0, n1, n2, e3) at h)) refl)
        | inr n3 ↦ cc (rw (n0, n1, n2, n3) at h)
      ]
    ]
  ]
]

max_cases : (a b : ℕ) → (max a b ≡ a) ⊎ (max a b ≡ b)
max_cases a b = elim (Bool-cases (ltb a b)) [
  | inl less ↦ inr (rw less refl)
  | inr not_less ↦ inl (rw not_less refl)
]

max_cases_of_three :
    (a b c : ℕ) → (max (max a b) c ≡ a) ⊎ ((max (max a b) c ≡ b) ⊎ (max (max a b) c ≡ c))
max_cases_of_three a b c = elim (max_cases (max a b) c) [
  | inr last ↦ inr (inr last)
  | inl first ↦ elim (max_cases a b) [ inl e ↦ inl (first ∙ e) | inr e ↦ inr (inl (first ∙ e)) ]
]

-- The tier is one of the ranks of the dimensions, and none is above it.
pub record IsGreatest (d s i : Value) (tier : String) : Type 0 where
  pub ranks : ℕ × ℕ × ℕ
  pub data_access : order_of d ≡ some ranks.0
  pub criticality : order_of s ≡ some ranks.1
  pub depth : order_of i ≡ some ranks.2
  pub rank : ℕ
  pub tier_rank : order tier ≡ some rank
  pub above : (ranks.0 ≤ rank) × (ranks.1 ≤ rank) × (ranks.2 ≤ rank)
  pub attained : (rank ≡ ranks.0) ⊎ ((rank ≡ ranks.1) ⊎ (rank ≡ ranks.2))

-- A tier that is computed is the rank of one of the three dimensions, and none of them ranks above
-- it.
pub compute_tier-IsGreatest :
    (d s i : Value) (tier : String) → compute_tier d s i ≡ ok tier → IsGreatest d s i tier
unfolding compute_tier
compute_tier-IsGreatest d s i tier h =
    let (a, da, h1) = bind-ok (dimension d) h in
    let (b, sb, h2) = bind-ok (dimension s) h1 in
    let (c, ic, h3) = bind-ok (dimension i) h2 in
    record {
      ranks = (a, b, c);
      data_access = or_raise-ok _ _ da;
      criticality = or_raise-ok _ _ sb;
      depth = or_raise-ok _ _ ic;
      rank = max (max a b) c;
      tier_rank = order-reverse _ tier (or_raise-ok _ _ h3);
      above = (ground arith, ground arith, ground arith);
      attained = max_cases_of_three a b c;
    }
