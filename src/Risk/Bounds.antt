-- ===== src/Risk/Bounds.antt =====
-- The range of the weighted score, and its order against the scores of the categories.
use sc_tpcrs.Prelude.{◌≡◌, true}
use sc_tpcrs.Prelude.Floats.{Floats, py_min, py_max}
use sc_tpcrs.Risk.Models.{Scores}

module _ (fl : Floats) where
  open fl use {F, literal, of_int, add, sub, mul, lt, le, round2}

  abbrev zero_point : F
  zero_point = literal "0.0"

  abbrev hundred : F
  hundred = literal "100.0"

  -- A weight is positive and at most one hundred, so that it is finite.
  abbrev IsWeight : F → Type 0
  IsWeight w = (lt zero_point w ≡ true) × (le w hundred ≡ true)

  -- Laws of Python's floats, which hold with the infinities and with values that are not numbers: a
  -- comparison with such a value is false, and no sum or product of the laws makes one.
  pub record FloatLaws : Type 0 where
    pub weaken : (a b : F) → lt a b ≡ true → le a b ≡ true
    pub lt_le_trans : (a b c : F) → lt a b ≡ true → le b c ≡ true → lt a c ≡ true
    pub le_lt_trans : (a b c : F) → le a b ≡ true → lt b c ≡ true → lt a c ≡ true
    pub zero_reflexive : le zero_point zero_point ≡ true
    pub hundred_reflexive : le hundred hundred ≡ true
    pub zero_below : lt zero_point hundred ≡ true
    pub sum_start : (le zero_point (of_int 0) ≡ true) × (le (of_int 0) (of_int 0) ≡ true)
    pub round_monotone : (a b : F) → le a b ≡ true → le (round2 a) (round2 b) ≡ true
    pub round_zero : round2 zero_point ≡ zero_point
    pub round_hundred : round2 hundred ≡ hundred
    pub add_nonneg :
        (a b : F) → le zero_point a ≡ true → le zero_point b ≡ true → le zero_point (add a b) ≡ true
    pub add_monotone :
        (a b c d : F)
        → le zero_point a ≡ true
        → le zero_point c ≡ true
        → le a b ≡ true
        → le c d ≡ true
        → le (add a c) (add b d) ≡ true
    pub mul_nonneg :
        (a w : F) → IsWeight w → le zero_point a ≡ true → le zero_point (mul a w) ≡ true
    pub mul_monotone :
        (a b w : F)
        → IsWeight w
        → le zero_point a ≡ true
        → le a b ≡ true
        → le (mul a w) (mul b w) ≡ true
    pub sub_antitone :
        (a b : F)
        → le zero_point a ≡ true
        → le a b ≡ true
        → le (sub hundred b) (sub hundred a) ≡ true
    pub weights :
        IsWeight (literal "0.25")
        × IsWeight (literal "0.20")
        × IsWeight (literal "0.15")
        × IsWeight (literal "0.05")

  abbrev clamp : F → F
  clamp v = py_min fl hundred (py_max fl zero_point v)

  -- Neither sum is negative, and they are in order.
  abbrev InOrder : F → F → Type 0
  InOrder a b = (le zero_point a ≡ true) × (le a b ≡ true)

  -- No category has a negative score, or one that is greater than the other's.
  pub record IsBelow (s s' : Scores F) : Type 0 where
    pub questionnaire : InOrder s.questionnaire_score s'.questionnaire_score
    pub external_posture : InOrder s.external_posture_score s'.external_posture_score
    pub vulnerability : InOrder s.vulnerability_score s'.vulnerability_score
    pub breach_history : InOrder s.breach_history_score s'.breach_history_score
    pub threat_intel : InOrder s.threat_intel_score s'.threat_intel_score
    pub compliance : InOrder s.compliance_score s'.compliance_score
