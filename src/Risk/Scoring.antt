-- ===== src/Risk/Scoring.antt =====
-- The weighted score and its tiers in services/risk-service/app/services/vrs_calculator.py.
use sc_tpcrs.Prelude.{String, List, [], ◌∷◌, if◌then◌else◌}
use sc_tpcrs.Prelude.Floats.{Floats, py_min, py_max}
use sc_tpcrs.Risk.Models.{Scores}

module _ (fl : Floats) where
  open fl use {F, literal, of_int, add, sub, mul, le, round2}

  unfoldable pub tier_bands : List (F × String)
  tier_bands =
      (literal "75.0", "Critical") ∷ (literal "55.0", "High") ∷ (literal "35.0", "Medium") ∷ []

  unfoldable pub tier_from : F → List (F × String) → String
  tier_from vrs [] = "Low"
  tier_from vrs ((threshold, tier) ∷ bands) =
      let rest = tier_from vrs bands in if le threshold vrs then tier else rest

  unfoldable pub tier_for_vrs : F → String
  unfolding tier_from tier_bands
  tier_for_vrs vrs = tier_from vrs tier_bands

  -- The scores under their weights, in the order of the dict.
  unfoldable pub weighted : Scores F → List (F × F)
  weighted s =
      (s.questionnaire_score, literal "0.25")
      ∷ (s.external_posture_score, literal "0.20")
      ∷ (s.vulnerability_score, literal "0.20")
      ∷ (s.breach_history_score, literal "0.15")
      ∷ (s.threat_intel_score, literal "0.15")
      ∷ (s.compliance_score, literal "0.05")
      ∷ []

  unfoldable pub sum_from : F → List (F × F) → F
  sum_from sum [] = sum
  sum_from sum ((score, weight) ∷ rest) = sum_from (add sum (mul score weight)) rest

  unfoldable pub compute_vrs : Scores F → F
  unfolding sum_from weighted
  compute_vrs scores =
      let vrs = sub (literal "100.0") (sum_from (of_int 0) (weighted scores)) in
      round2 (py_min fl (literal "100.0") (py_max fl (literal "0.0") vrs))
