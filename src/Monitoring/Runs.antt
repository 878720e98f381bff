-- ===== src/Monitoring/Runs.antt =====
-- Whole runs of the service: the consumer over its messages and the sweep over the vendors.
use sc_tpcrs.Prelude.{
  ℕ, ◌+◌, ◌≤◌, String, ◌≡◌, refl, subst, Bool, true, false, Option, none, some, List, [], ◌∷◌, ◌++◌,
  arith, length, length-append, Result, ok, err, Error, bind-ok, ok-injective, or_raise,
  if◌then◌else◌,
}
use sc_tpcrs.Kafka.{Event, consume-IsInvariant}
use sc_tpcrs.Prelude.Floats.{Floats}
use sc_tpcrs.Monitoring.Models.{Alert, Snapshot, Db, World, Env, audit}
use sc_tpcrs.Monitoring.Posture.{collect_posture, rotating_probe}
use sc_tpcrs.Monitoring.Engine.{AlertSpec, alert_from_event, upsert_alert}
use sc_tpcrs.Monitoring.Events.{
  Clock, set_published, publish_alert, logged, raise_alert, handle_hinted, handle_event,
  run_consumer,
}
use sc_tpcrs.Monitoring.Sweep.{
  Sources, Touched, Progress, upsert_all, sweep_vendor, counted, sweep_all, run_sweep,
}
use sc_tpcrs.Monitoring.Snapshots.{SnapshotsOf, sweep_all-Wrote}
use sc_tpcrs.Monitoring.Dedup.{
  IsDeduplicated, upsert_alert-IsDeduplicated, set_published-IsDeduplicated,
}

module _ {F : Type 0} (env : Env) where
  raise_alert-IsDeduplicated :
      (clock : Clock) (spec : AlertSpec) (w w' : World F)
      → raise_alert env clock spec w ≡ ok w'
      → IsDeduplicated env w.db
      → IsDeduplicated env w'.db
  unfolding raise_alert audit
  raise_alert-IsDeduplicated clock spec w w' e h =
      let (r, upserted, done) = bind-ok (upsert_alert env clock.now spec w.db) e in
      let after = upsert_alert-IsDeduplicated env clock.now spec w.db r.2 r.0 r.1 upserted h in
      subst (λ (v : World F). IsDeduplicated env v.db) (ok-injective done)
        (flag (publish_alert r.0 w.bus).0 r.0 (logged env clock spec r.1 r.2)
          (record { at_most_one = after.at_most_one; drawn_ids = after.drawn_ids }))
    where
      flag :
          (sent : Bool) (alert : Alert) (db : Db F)
          → IsDeduplicated env db
          → IsDeduplicated env (if sent then set_published alert true db else db)
      flag true alert db g = set_published-IsDeduplicated env alert true db g
      flag false alert db g = g

  pub handle_event-IsDeduplicated :
      (m : Clock × Event) (w w' : World F)
      → handle_event env m w ≡ ok w'
      → IsDeduplicated env w.db
      → IsDeduplicated env w'.db
  unfolding handle_event handle_hinted
  handle_event-IsDeduplicated m w w' e h =
      let (spec, mapped, rest) = bind-ok (alert_from_event env _ m.1) e in handled spec rest
    where
      handled :
          (spec : Option AlertSpec)
          → elim spec [ none ↦ ok w | some s ↦ raise_alert env m.0 s w ] ≡ ok w'
          → IsDeduplicated env w'.db
      handled none same = rw⁻¹ (ok-injective same) h
      handled (some s) raised = raise_alert-IsDeduplicated m.0 s w w' raised h

  -- Whatever the messages are, the consumer keeps the alert table deduplicated: at most one alert
  -- that is not resolved for a vendor and a key, under the identifiers that were drawn.
  pub run_consumer-IsDeduplicated :
      (messages : List (Clock × Event)) (w : World F)
      → IsDeduplicated env w.db
      → IsDeduplicated env (run_consumer env messages w).db
  unfolding run_consumer
  run_consumer-IsDeduplicated messages w h =
      consume-IsInvariant (handle_event env) (λ (v : World F). IsDeduplicated env v.db)
        (λ m v v' g e. handle_event-IsDeduplicated m v v' e g) messages w h

module _ (fl : Floats) (env : Env) (sources : Sources fl.F) (now : ℕ) where
  -- What one sweep keeps of the tables and of its counts: the new alerts are among the touched ones.
  abbrev Swept : Touched fl → Type 0
  Swept (touched, created, db) = IsDeduplicated env db × (created ≤ length touched)

  upsert_all-Swept :
      (specs : List AlertSpec) (t t' : Touched fl)
      → upsert_all fl env now specs t ≡ ok t'
      → Swept t
      → Swept t'
  unfolding upsert_all
  upsert_all-Swept [] t t' e h = subst Swept (ok-injective e) h
  upsert_all-Swept (spec ∷ specs) (touched, created, db) t' e h =
      let (r, upserted, rest) = bind-ok (upsert_alert env now spec db) e in
      upsert_all-Swept specs (touched ++ r.0 ∷ [], created + (if r.1 then 1 else 0), r.2) t' rest
        (
          upsert_alert-IsDeduplicated env now spec db r.2 r.0 r.1 upserted h.0,
          rw (length-append touched (r.0 ∷ [])) (one_more r.1),
        )
    where
      one_more : (b : Bool) → created + (if b then 1 else 0) ≤ length touched + 1
      one_more true = omega (arith, h.1)
      one_more false = omega (arith, h.1)

  sweep_vendor-Swept :
      (v : String) (epoch : ℕ) (db : Db fl.F) (t : Touched fl)
      → sweep_vendor fl env sources now v epoch db ≡ ok t
      → IsDeduplicated env db
      → Swept t
  unfolding sweep_vendor
  sweep_vendor-Swept v epoch db t e h =
      let (vendor_uuid, parsed, rest) =
        bind-ok (or_raise (env.parse_uuid v) (Error.value_error "badly formed UUID")) e in
      let (reading, read, rest') =
        bind-ok (collect_posture fl sources.adapters v (rotating_probe fl sources.rng v epoch))
          rest in
      upsert_all-Swept _ _ t rest'
        (record { at_most_one = h.at_most_one; drawn_ids = h.drawn_ids }, omega arith)

  -- The counts of a sweep add up to the touched alerts.
  abbrev Counted : ℕ → Progress fl → Type 0
  Counted swept (totals, all_touched, db) =
      IsDeduplicated env db
      × (totals.alerts_opened + totals.alerts_updated ≡ length all_touched)
      × (totals.snapshots_written ≤ swept)

  counted-Counted :
      (v : String) (epoch swept : ℕ) (p : Progress fl) (r : Result (Touched fl))
      → sweep_vendor fl env sources now v epoch p.2 ≡ r
      → Counted swept p
      → Counted (swept + 1) (counted fl r p)
  counted-Counted v epoch swept (totals, all_touched, db) (err x) e h =
      (h.0, h.1, omega (arith, h.2))
  counted-Counted v epoch swept (totals, all_touched, db) (ok (touched, created, db')) e h =
      let s = sweep_vendor-Swept v epoch db (touched, created, db') e h.0 in
      (s.0, rw (length-append all_touched touched) (omega (arith, s.1, h.1)), omega (arith, h.2))

  sweep_all-Counted :
      (vs : List String) (epoch swept : ℕ) (p : Progress fl)
      → Counted swept p
      → Counted (swept + length vs) (sweep_all fl env sources now vs epoch p)
  unfolding sweep_all
  sweep_all-Counted [] epoch swept (totals, all_touched, db) h = (h.0, h.1, omega (arith, h.2))
  sweep_all-Counted (v ∷ vs) epoch swept p h =
      let rest =
        sweep_all-Counted vs epoch (swept + 1)
          (counted fl (sweep_vendor fl env sources now v epoch p.2) p)
          (counted-Counted v epoch swept p _ refl h) in
      (rest.0, rest.1, omega (arith, rest.2))

-- From a deduplicated alert table, a sweep keeps it deduplicated, adds to the snapshots at most one
-- row for each entry of the vendor list, in its order, and counts them; its two counts of alerts
-- add up to the alerts that it returns for publishing.
pub run_sweep-Counted :
    (fl : Floats) (env : Env) (sources : Sources fl.F) (clock : Clock) (actor : String)
    (vendors : List String) (epoch : ℕ) (db : Db fl.F)
    → IsDeduplicated env db
    → let (result, all_touched, db') = run_sweep fl env sources clock actor vendors epoch db in
      IsDeduplicated env db'
      × (result.totals.alerts_opened + result.totals.alerts_updated ≡ length all_touched)
      × (result.totals.snapshots_written ≤ result.vendors_swept)
      × ((rows : List (Snapshot fl.F)) × SnapshotsOf fl env sources clock.now vendors rows
          × (db'.snapshots ≡ db.snapshots ++ rows)
          × (result.totals.snapshots_written ≡ length rows))
unfolding run_sweep audit
run_sweep-Counted fl env sources clock actor vendors epoch db h =
    let all =
      sweep_all-Counted fl env sources clock.now vendors epoch 0
        (record { snapshots_written = 0; alerts_opened = 0; alerts_updated = 0 }, [], db)
        (h, omega arith, omega arith) in
    let wrote =
      sweep_all-Wrote fl env sources clock.now vendors epoch
        (record { snapshots_written = 0; alerts_opened = 0; alerts_updated = 0 }, [], db) in
    (
      record { at_most_one = all.0.at_most_one; drawn_ids = all.0.drawn_ids },
      all.1,
      omega (arith, all.2),
      (wrote.rows, wrote.of_vendors, wrote.snapshots, omega (arith, wrote.counted_rows)),
    )
