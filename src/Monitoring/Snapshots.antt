-- ===== src/Monitoring/Snapshots.antt =====
-- The snapshots that a sweep writes.
use sc_tpcrs.Prelude.{
  ℕ, ◌+◌, String, ◌≡◌, refl, sym, ap, ◌∙◌, inl, inr, Bool, some, List, [], ◌∷◌, ◌++◌, arith, length,
  Result, ok, err, Error, bind-ok, ok-injective, or_raise, or_raise-ok, Option-cases, if◌then◌else◌,
}
use mathlib.Core.List.{append_assoc, append-nil}
use sc_tpcrs.Prelude.Floats.{Floats}
use sc_tpcrs.Monitoring.Models.{Alert, Snapshot, Db, Env}
use sc_tpcrs.Monitoring.Posture.{collect_posture, rotating_probe}
use sc_tpcrs.Monitoring.Engine.{AlertSpec, upsert_alert, existing_alert}
use sc_tpcrs.Monitoring.Sweep.{
  Sources, Touched, Progress, upsert_all, new_snapshot, sweep_vendor, counted, sweep_all,
}

upsert_alert-snapshots :
    {F : Type 0} (env : Env) (now : ℕ) (spec : AlertSpec) (db : Db F) (r : Alert × Bool × Db F)
    → upsert_alert env now spec db ≡ ok r
    → (r.2).snapshots ≡ db.snapshots
unfolding upsert_alert
upsert_alert-snapshots env now spec db r e =
    let (v, parsed, rest) =
      bind-ok (or_raise (env.parse_uuid spec.vendor_id) (Error.value_error "badly formed UUID"))
        e in
    elim (Option-cases (existing_alert v spec.dedup_key db)) [
      | inl missing ↦
          ap (λ (t : Alert × Bool × Db _). (t.2).snapshots)
            (sym (ok-injective (rw missing at rest)))
      | inr (old, found) ↦
          ap (λ (t : Alert × Bool × Db _). (t.2).snapshots) (sym (ok-injective (rw found at rest)))
    ]

module _ (fl : Floats) (env : Env) (sources : Sources fl.F) (now : ℕ) where
  -- A snapshot of the vendor, taken at the time of the sweep.
  abbrev IsSnapshotOf : String → Snapshot fl.F → Type 0
  IsSnapshotOf v s = (env.parse_uuid v ≡ some s.vendor_id) × (s.observed_at ≡ now)

  -- At most one snapshot of each vendor, in the order of the vendors.
  pub data SnapshotsOf : List String → List (Snapshot fl.F) → Type 0 where
    nobody : SnapshotsOf [] []
    skipped :
        {v : String} {vs : List String} {rows : List (Snapshot fl.F)}
        → SnapshotsOf vs rows
        → SnapshotsOf (v ∷ vs) rows
    written :
        {v : String} {vs : List String} {s : Snapshot fl.F} {rows : List (Snapshot fl.F)}
        → IsSnapshotOf v s
        → SnapshotsOf vs rows
        → SnapshotsOf (v ∷ vs) (s ∷ rows)

  upsert_all-snapshots :
      (specs : List AlertSpec) (t t' : Touched fl)
      → upsert_all fl env now specs t ≡ ok t'
      → (t'.2).snapshots ≡ (t.2).snapshots
  unfolding upsert_all
  upsert_all-snapshots [] t t' e = ap (λ (x : Touched fl). (x.2).snapshots) (sym (ok-injective e))
  upsert_all-snapshots (spec ∷ specs) (touched, created, db) t' e =
      let (r, upserted, rest) = bind-ok (upsert_alert env now spec db) e in
      upsert_all-snapshots specs (touched ++ r.0 ∷ [], created + (if r.1 then 1 else 0), r.2) t'
        rest
      ∙ upsert_alert-snapshots env now spec db r upserted

  sweep_vendor-snapshots :
      (v : String) (epoch : ℕ) (db : Db fl.F) (t : Touched fl)
      → sweep_vendor fl env sources now v epoch db ≡ ok t
      → (s : Snapshot fl.F) × IsSnapshotOf v s × ((t.2).snapshots ≡ db.snapshots ++ s ∷ [])
  unfolding sweep_vendor new_snapshot
  sweep_vendor-snapshots v epoch db t e =
      let (vendor_uuid, parsed, rest) =
        bind-ok (or_raise (env.parse_uuid v) (Error.value_error "badly formed UUID")) e in
      let (reading, read, rest') =
        bind-ok (collect_posture fl sources.adapters v (rotating_probe fl sources.rng v epoch))
          rest in
      (_, (or_raise-ok _ _ parsed, refl), upsert_all-snapshots _ _ t rest')

  -- What a sweep over the vendors writes: the rows that are added, and how many they are.
  pub record Wrote (vs : List String) (p p' : Progress fl) : Type 0 where
    pub rows : List (Snapshot fl.F)
    pub of_vendors : SnapshotsOf vs rows
    pub snapshots : (p'.2).snapshots ≡ (p.2).snapshots ++ rows
    pub counted_rows : (p'.0).snapshots_written ≡ (p.0).snapshots_written + length rows

  pub sweep_all-Wrote :
      (vs : List String) (epoch : ℕ) (p : Progress fl)
      → Wrote vs p (sweep_all fl env sources now vs epoch p)
  unfolding sweep_all
  sweep_all-Wrote [] epoch p = record {
    rows = [];
    of_vendors = nobody;
    snapshots = sym (append-nil (p.2).snapshots);
    counted_rows = omega arith;
  }
  sweep_all-Wrote (v ∷ vs) epoch (totals, all_touched, db) =
      swept (sweep_vendor fl env sources now v epoch db) refl (λ q. sweep_all-Wrote vs epoch q)
    where
      swept :
          (r : Result (Touched fl))
          → sweep_vendor fl env sources now v epoch db ≡ r
          → ((q : Progress fl) → Wrote vs q (sweep_all fl env sources now vs epoch q))
          → Wrote
              (v ∷ vs)
              (totals, all_touched, db)
              (sweep_all fl env sources now vs epoch (counted fl r (totals, all_touched, db)))
      swept (err x) e later =
          let rest = later (totals, all_touched, db) in
          record {
            rows = rest.rows;
            of_vendors = skipped rest.of_vendors;
            snapshots = rest.snapshots;
            counted_rows = rest.counted_rows;
          }
      swept (ok t) e later =
          let (s, taken, added) = sweep_vendor-snapshots v epoch db t e in
          let rest = later (counted fl (ok t) (totals, all_touched, db)) in
          record {
            rows = s ∷ rest.rows;
            of_vendors = written taken rest.of_vendors;
            snapshots =
                rest.snapshots
                ∙ ap (λ l. l ++ rest.rows) added
                ∙ append_assoc db.snapshots (s ∷ []) rest.rows;
            counted_rows = omega (arith, rest.counted_rows);
          }
