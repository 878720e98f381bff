-- ===== src/Monitoring/Sweep.antt =====
-- services/monitoring-service/app/services/sweep_service.py. The list of vendors is the answer of
-- vendor-service. A vendor whose sweep raises has written nothing.
use sc_tpcrs.Prelude.{
  ℕ, ◌+◌, ◌-◌, String, Option, none, some, List, [], ◌∷◌, ◌++◌, ◌==◌, length, select, last?, Result,
  ok, err, Error, ◌>>=◌, or_raise, if◌then◌else◌,
}
use sc_tpcrs.Prelude.Value.{integer, Detail, Details}
use sc_tpcrs.Prelude.Floats.{Floats}
use sc_tpcrs.Monitoring.Models.{Alert, Snapshot, Db, Env, audit}
use sc_tpcrs.Monitoring.Posture.{Adapters, Rng, PostureReading, collect_posture, rotating_probe}
use sc_tpcrs.Monitoring.Engine.{AlertSpec, evaluate_snapshot, upsert_alert}
use sc_tpcrs.Monitoring.Events.{Clock}

-- What a sweep takes from outside beside the environment: the adapters, the generator, and the two
-- drift thresholds of the settings.
pub record Sources (F : Type 0) : Type 0 where
  pub adapters : Adapters F
  pub rng : Rng F
  pub drift_critical : F
  pub drift_warning : F

pub record Totals : Type 0 where
  pub snapshots_written : ℕ
  pub alerts_opened : ℕ
  pub alerts_updated : ℕ

pub record SweepResult : Type 0 where
  pub vendors_swept : ℕ
  pub totals : Totals

module _ (fl : Floats) where
  open fl use {F, literal, sub, round2}

  -- The newest snapshot: rows stand in the order of `observed_at`.
  unfoldable pub previous_snapshot : String → Db F → Option (Snapshot F)
  previous_snapshot vendor_id db =
      last? (select (λ (s : Snapshot F). s.vendor_id == vendor_id) db.snapshots)

  abbrev pub Touched : Type 0
  Touched = List Alert × ℕ × Db F

  -- The loop over the specs: the touched alerts, how many of them are new, and the tables.
  unfoldable pub upsert_all : Env → ℕ → List AlertSpec → Touched → Result Touched
  upsert_all env now [] t = ok t
  upsert_all env now (spec ∷ specs) (touched, created, db) = do
    (alert, was_created, db') ← upsert_alert env now spec db
    upsert_all env now specs (touched ++ alert ∷ [], created + (if was_created then 1 else 0), db')

  unfoldable pub new_snapshot : String → PostureReading F → Option F → ℕ → Snapshot F
  new_snapshot vendor_uuid reading prev_exposure now = record {
    vendor_id = vendor_uuid;
    posture_score = reading.posture_score;
    open_service_count = length reading.open_services;
    ioc_match_count = reading.ioc_match_count;
    abuse_report_count = reading.abuse_report_count;
    exposure_index = reading.exposure_index;
    drift = elim prev_exposure [
      | none ↦ literal "0.0"
      | some previous ↦ round2 (sub reading.exposure_index previous)
    ];
    open_services = reading.open_services;
    drift_probe = reading.drift_probe;
    observed_at = now;
  }

  abbrev exposure_of : Option (Snapshot F) → Option F
  exposure_of none = none
  exposure_of (some s) = some s.exposure_index

  abbrev services_of : Option (Snapshot F) → Option (List String)
  services_of none = none
  services_of (some s) = some s.open_services

  unfoldable pub sweep_vendor : Env → Sources F → ℕ → String → ℕ → Db F → Result Touched
  unfolding previous_snapshot
  sweep_vendor env sources now vendor_id sweep_epoch db = do
    vendor_uuid ← or_raise (env.parse_uuid vendor_id) (Error.value_error "badly formed UUID")
    let prev = previous_snapshot vendor_uuid db
    reading ←
        collect_posture fl sources.adapters vendor_id
          (rotating_probe fl sources.rng vendor_id sweep_epoch)
    let db' = record db {
      snapshots = db.snapshots ++ new_snapshot vendor_uuid reading (exposure_of prev) now ∷ [];
    }
    let specs =
        evaluate_snapshot fl env sources.drift_critical sources.drift_warning vendor_id reading
          (exposure_of prev) (services_of prev)
    upsert_all env now specs ([], 0, db')

  abbrev pub Progress : Type 0
  Progress = Totals × List Alert × Db F

  abbrev pub counted : Result Touched → Progress → Progress
  counted (err e) p = p
  counted (ok (touched, created, db')) (totals, all_touched, db) = (
    record {
      snapshots_written = totals.snapshots_written + 1;
      alerts_opened = totals.alerts_opened + created;
      alerts_updated = totals.alerts_updated + (length touched - created);
    },
    all_touched ++ touched,
    db',
  )

  -- The loop over the vendors: `except Exception: continue`.
  unfoldable pub sweep_all : Env → Sources F → ℕ → List String → ℕ → Progress → Progress
  sweep_all env sources now [] sweep_epoch p = p
  sweep_all env sources now (v ∷ vs) sweep_epoch p =
      sweep_all env sources now vs sweep_epoch
        (counted (sweep_vendor env sources now v sweep_epoch p.2) p)

  abbrev sweep_details : ℕ → Totals → ℕ → Details
  sweep_details swept totals sweep_epoch =
      ("vendors_swept", Detail.value (integer swept))
      ∷ ("snapshots_written", Detail.value (integer totals.snapshots_written))
      ∷ ("alerts_opened", Detail.value (integer totals.alerts_opened))
      ∷ ("alerts_updated", Detail.value (integer totals.alerts_updated))
      ∷ ("sweep_epoch", Detail.value (integer sweep_epoch))
      ∷ []

  unfoldable pub run_sweep :
      Env → Sources F → Clock → String → List String → ℕ → Db F → SweepResult × List Alert × Db F
  run_sweep env sources clock actor vendors sweep_epoch db =
      let start : Totals = record {
        snapshots_written = 0;
        alerts_opened = 0;
        alerts_updated = 0;
      } in
      let (totals, all_touched, db') =
        sweep_all env sources clock.now vendors sweep_epoch (start, [], db) in
      (
        record { vendors_swept = length vendors; totals = totals },
        all_touched,
        audit env actor "MONITORING_SWEEP" "portfolio"
            (some (sweep_details (length vendors) totals sweep_epoch)) clock.now_text db',
      )
