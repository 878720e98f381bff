-- ===== src/Risk/Scored.antt =====
-- What a computed score is, and what it leaves in the tables.
use sc_tpcrs.Prelude.{
  ℕ, String, ◌≡◌, refl, sym, ap, ◌∙◌, inl, inr, true, Option, none, some, List, [], ◌∷◌, ◌++◌, ◌==◌,
  All, length, ◌≤◌, select, select-append, last?, last?-append, one_of, ok, Bool-cases, arith,
  eq_refl,
}
use mathlib.Core.List.{append-nil}
use sc_tpcrs.Prelude.Floats.{Floats, py_min, py_max}
use sc_tpcrs.Audit.{Hashing}
use sc_tpcrs.Jwt.{TokenPayload, require_role}
use sc_tpcrs.Risk.Models.{Scores, RiskScoreHistory, AnomalyFlag, Db, World, Call}
use sc_tpcrs.Risk.Sources.{Adapters}
use sc_tpcrs.Risk.Scoring.{compute_vrs, tier_for_vrs}
use sc_tpcrs.Risk.Service.{
  Model, tier_ordinal, feature_vector, previous_vrs, flag_of, evaluate_anomaly, collect_scores,
  score_row, compute_for_vendor, recorded_score, compute_risk_score, get_latest_risk_score,
}

module _ (fl : Floats) where
  open fl use {F, literal, of_int, add, sub, mul, le, round2}

  -- The documented formula: one hundred less the weighted sum, between 0 and 100, at two decimals.
  abbrev pub documented_score : Scores F → F
  documented_score s =
      let sum =
        add
          (add
            (add
              (add
                (add (add (of_int 0) (mul s.questionnaire_score (literal "0.25")))
                  (mul s.external_posture_score (literal "0.20")))
                (mul s.vulnerability_score (literal "0.20")))
              (mul s.breach_history_score (literal "0.15")))
            (mul s.threat_intel_score (literal "0.15")))
          (mul s.compliance_score (literal "0.05")) in
      round2 (py_min fl (literal "100.0") (py_max fl (literal "0.0") (sub (literal "100.0") sum)))

  -- Every tier that a score is given has an ordinal.
  tier_ordinal-tier_for_vrs : (v : F) → (n : ℕ) × (tier_ordinal (tier_for_vrs fl v) ≡ ok n)
  unfolding tier_for_vrs tier_ordinal
  tier_ordinal-tier_for_vrs v = elim (Bool-cases (le (literal "75.0") v)) [
    | inl critical ↦ (3, rw critical refl)
    | inr below ↦ elim (Bool-cases (le (literal "55.0") v)) [
      | inl high ↦ (2, rw (below, high) refl)
      | inr lower ↦ elim (Bool-cases (le (literal "35.0") v)) [
        | inl medium ↦ (1, rw (below, lower, medium) refl)
        | inr low ↦ (0, rw (below, lower, low) refl)
      ]
    ]
  ]

  -- A flag of the vendor is raised from the threshold on.
  abbrev IsFlagOf : String → AnomalyFlag F → Type 0
  IsFlagOf vendor_id f =
      (f.vendor_id ≡ vendor_id) × (f.is_anomalous ≡ le (literal "0.7") f.anomaly_score)

  -- What an evaluation adds to the tables.
  pub record Evaluated (model : Option (Model F)) (call : Call) (row : RiskScoreHistory F)
      (db : Db F) : Type 0 where
    pub flag : Option (AnomalyFlag F)
    pub added : List (AnomalyFlag F)
    pub of_vendor : All (IsFlagOf row.vendor_id) added
    pub at_most_one : length added ≤ 1
    pub answered :
        evaluate_anomaly fl call model row db ≡ ok (flag, record db { flags = db.flags ++ added })

  evaluate_anomaly-Evaluated :
      (call : Call) (model : Option (Model F)) (row : RiskScoreHistory F) (db : Db F) (n : ℕ)
      → tier_ordinal row.tier ≡ ok n
      → Evaluated model call row db
  unfolding evaluate_anomaly flag_of
  evaluate_anomaly-Evaluated call none row db n h = record {
    flag = none;
    added = [];
    of_vendor = tt;
    at_most_one = omega arith;
    answered = ap (λ fs. ok (none, record db { flags = fs })) (sym (append-nil db.flags));
  }
  evaluate_anomaly-Evaluated call (some model) row db n h =
      let flag =
        flag_of fl call model row
          (feature_vector fl row n (sub row.vrs_score (previous_vrs fl row db))) in
      record {
        flag = some flag;
        added = flag ∷ [];
        of_vendor = ((refl, refl), tt);
        at_most_one = omega arith;
        answered = rw h refl;
      }

  -- A stored score: what the row holds, that it is the latest of the vendor, and what else has changed.
  pub record IsScored (vendor_id : String) (scores : Scores F) (row : RiskScoreHistory F)
      (db db' : Db F) : Type 0 where
    pub inputs : row.inputs_snapshot ≡ scores
    pub score : row.vrs_score ≡ documented_score scores
    pub tier : row.tier ≡ tier_for_vrs fl row.vrs_score
    pub history : db'.scores ≡ db.scores ++ row ∷ []
    pub latest : get_latest_risk_score fl vendor_id db' ≡ some row
    pub added : List (AnomalyFlag F)
    pub flags : db'.flags ≡ db.flags ++ added
    pub of_vendor : All (IsFlagOf vendor_id) added
    pub at_most_one : length added ≤ 1
    pub tech_stack : db'.tech_stack ≡ db.tech_stack

  latest-append :
      (vendor_id : String) (rows : List (RiskScoreHistory F)) (row : RiskScoreHistory F)
      → row.vendor_id ≡ vendor_id
      → last? (select (λ (r : RiskScoreHistory F). r.vendor_id == vendor_id) (rows ++ row ∷ []))
        ≡ some row
  latest-append vendor_id rows row same =
      ap last?
        (select-append (λ (r : RiskScoreHistory F). r.vendor_id == vendor_id) rows (row ∷ []))
      ∙ rw (ap (λ s. s == vendor_id) same ∙ eq_refl vendor_id)
          (last?-append (select (λ (r : RiskScoreHistory F). r.vendor_id == vendor_id) rows) row)

  -- Where the six category scores of a vendor are collected, a computation that a writer asks for
  -- succeeds: it appends one row to the history, which is the vendor's latest and has the scores,
  -- the score of the documented formula and its tier; at most one flag is added, which is anomalous
  -- from the threshold on.
  pub compute_risk_score-IsScored :
      (hashing : Hashing) (adapters : Adapters F) (model : Option (Model F)) (call : Call)
      (user : TokenPayload) (vendor_id : String) (scores : Scores F) (w : World F)
      → one_of user.role ("risk_officer" ∷ "ciso" ∷ "admin" ∷ []) ≡ true
      → collect_scores fl adapters vendor_id (ok vendor_id) w.db ≡ ok scores
      → (row : RiskScoreHistory F) × (w' : World F) × (compute_risk_score fl hashing adapters model
            call user vendor_id w
          ≡ ok (row, w'))
        × IsScored vendor_id scores row w.db w'.db
  unfolding compute_risk_score recorded_score compute_for_vendor require_role score_row
      get_latest_risk_score compute_vrs sc_tpcrs.Risk.Scoring.sum_from
      sc_tpcrs.Risk.Scoring.weighted
  compute_risk_score-IsScored hashing adapters model call user vendor_id scores w role collected =
      let row = score_row fl call vendor_id scores in
      let (n, ordinal) = tier_ordinal-tier_for_vrs (compute_vrs fl scores) in
      let e =
        evaluate_anomaly-Evaluated call model row
          (record w.db { scores = (w.db).scores ++ row ∷ [] }) n ordinal in
      let db = record w.db {
        scores = (w.db).scores ++ row ∷ [];
        flags = (w.db).flags ++ e.added;
      } in
      let done = recorded_score fl hashing call user.sub vendor_id row db w in
      (
        row,
        done,
        rw (role, collected, e.answered) refl,
        record {
          inputs = refl;
          score = refl;
          tier = refl;
          history = refl;
          latest = latest-append vendor_id (w.db).scores row refl;
          added = e.added;
          flags = refl;
          of_vendor = e.of_vendor;
          at_most_one = e.at_most_one;
          tech_stack = refl;
        },
      )
