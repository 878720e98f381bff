-- ===== src/Monitoring/Posture.antt =====
-- services/monitoring-service/app/services/posture.py. The adapters' registry and the seeded random
-- generator are given from outside.
use sc_tpcrs.Prelude.{
  ℕ, String, List, fstring, decimal, [], ◌∷◌, if◌then◌else◌, nat_eq, Result, ok, ◌>>=◌,
}
use sc_tpcrs.Prelude.Floats.{Floats, py_min, py_max}

-- What the adapters return for a probe: the posture score and open services, the number of matches of
-- indicators of compromise, and the number of abuse reports. A fetch may raise.
pub record Adapters (F : Type 0) : Type 0 where
  pub shodan : String → Result (F × List String)
  pub misp : String → Result ℕ
  pub abuseipdb : String → Result ℕ

-- `seeded_random("monitoring-probe", vendor_id, epoch)`: its `random()`, and the `randint(1, 2)` after.
pub record Rng (F : Type 0) : Type 0 where
  pub random : String → ℕ → F
  pub randint : String → ℕ → ℕ

pub record PostureReading (F : Type 0) : Type 0 where
  pub posture_score : F
  pub open_services : List String
  pub ioc_match_count : ℕ
  pub abuse_report_count : ℕ
  pub exposure_index : F
  pub drift_probe : ℕ

module _ (fl : Floats) where
  open fl use {F, literal, of_int, add, sub, mul, div, lt, round2}

  unfoldable pub compute_exposure_index : F → ℕ → ℕ → F
  compute_exposure_index posture_score ioc_match_count abuse_report_count =
      let posture_component = mul (sub (literal "100.0") posture_score) (literal "0.6") in
      let ioc_component =
        mul
          (mul (py_min fl (div (of_int ioc_match_count) (of_int 4)) (literal "1.0"))
            (literal "100.0"))
          (literal "0.25") in
      let abuse_component =
        mul
          (mul (py_min fl (div (of_int abuse_report_count) (of_int 5)) (literal "1.0"))
            (literal "100.0"))
          (literal "0.15") in
      round2 (
        py_max fl (literal "0.0")
          (py_min fl (literal "100.0") (add (add posture_component ioc_component) abuse_component)))

  unfoldable pub collect_posture : Adapters F → String → ℕ → Result (PostureReading F)
  unfolding compute_exposure_index
  collect_posture adapters vendor_id drift_probe = do
    let probe_id =
        if nat_eq drift_probe 0
        then vendor_id
        else fstring (vendor_id ∷ "#probe" ∷ decimal drift_probe ∷ [])
    (posture_score, open_services) ← adapters.shodan probe_id
    ioc ← adapters.misp probe_id
    abuse_reports ← adapters.abuseipdb probe_id
    ok (record {
      posture_score = posture_score;
      open_services = open_services;
      ioc_match_count = ioc;
      abuse_report_count = abuse_reports;
      exposure_index = compute_exposure_index posture_score ioc abuse_reports;
      drift_probe = drift_probe;
    })

  unfoldable pub rotating_probe : Rng F → String → ℕ → ℕ
  rotating_probe rng vendor_id sweep_epoch =
      if lt (rng.random vendor_id sweep_epoch) (literal "0.7")
      then 0
      else rng.randint vendor_id sweep_epoch
