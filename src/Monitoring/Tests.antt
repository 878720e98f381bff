-- ===== src/Monitoring/Tests.antt =====
-- Concrete runs of monitoring-service, with natural numbers for floats.
use sc_tpcrs.Prelude.{
  ℕ, zero, suc, ◌+◌, ◌*◌, ◌-◌, ◌/◌, String, ◌≡◌, refl, ap, Bool, true, false, none, some, [], ◌∷◌,
  Result, ok, err, ltb, leb, decimal, length, List, ◌++◌, ◌≤◌, arith,
}
use Prim.Native.String
use text.Mathlib.TextLemmas.{length-append}
use sc_tpcrs.Prelude.Floats.{Floats}
use sc_tpcrs.Prelude.Value.{str}
use sc_tpcrs.Prelude.Keyed.{NeverRepeats}
use sc_tpcrs.Jwt.{TokenPayload}
use sc_tpcrs.Kafka.{Event, Bus}
use sc_tpcrs.Audit.{Hashing}
use sc_tpcrs.Monitoring.Models.{Snapshot, Alert, Db, Env}
use sc_tpcrs.Monitoring.Engine
use sc_tpcrs.Monitoring.Engine.{AlertSpec, upsert_alert}
use sc_tpcrs.Monitoring.Events.{Clock, run_consumer}
use sc_tpcrs.Monitoring.Router.{acknowledge_alert, resolve_alert}
use sc_tpcrs.Monitoring.Sweep.{Sources, run_sweep}
use sc_tpcrs.Monitoring.Dedup.{
  IsDeduplicated, upsert_alert-IsDeduplicated, acknowledge_alert-IsDeduplicated,
  resolve_alert-IsDeduplicated,
}
use sc_tpcrs.Monitoring.Snapshots.{SnapshotsOf}
use sc_tpcrs.Monitoring.Runs.{run_consumer-IsDeduplicated, run_sweep-Counted}

-- The text of that many strokes, so that no two are the same.
abbrev strokes : ℕ → String
strokes zero = ""
strokes (suc n) = String.◌++◌ "|" (strokes n)

strokes_count : (n : ℕ) → String.count (strokes n) ≡ n
strokes_count zero = refl
strokes_count (suc n) = omega (arith, length-append "|" (strokes n), strokes_count n)

strokes_never_repeat : NeverRepeats strokes
strokes_never_repeat i j less same =
    omega (arith, less, strokes_count i, strokes_count j, ap String.count same)

abbrev hashing : Hashing
hashing = record { sha256_hex = λ s. s; json_dumps = λ e. e.action }

abbrev env : Env
env = record {
  hashing = hashing;
  parse_uuid = λ s. some s;
  uuid4 = strokes;
  parse_int = λ s. none;
  upper = λ s. s;
}

abbrev clock : Clock
clock = record { now = 5; now_text = "t5" }

abbrev empty : Db ℕ
empty = record { snapshots = []; alerts = []; audit_log = [] }

empty-IsDeduplicated : IsDeduplicated env empty
empty-IsDeduplicated = record { at_most_one = λ v k. omega arith; drawn_ids = refl }

abbrev spec : AlertSpec
spec = record {
  vendor_id = "v1";
  alert_type = "RISK_ANOMALY";
  severity = "High";
  title = "t";
  description = "d";
  dedup_key = "RISK_ANOMALY";
  source = "sweep";
  details = [];
}

abbrev alert_of : Result (Alert × Bool × Db ℕ) → Db ℕ → Alert × Bool × Db ℕ
alert_of (ok r) db = r
alert_of (err e) db = (Engine.new_alert "" "" spec 0, false, db)

abbrev raised : Alert × Bool × Db ℕ
raised = alert_of (upsert_alert env 5 spec empty) empty

raised-IsDeduplicated : IsDeduplicated env raised.2
unfolding upsert_alert Engine.existing_alert
raised-IsDeduplicated =
    upsert_alert-IsDeduplicated env 5 spec empty raised.2 raised.0 raised.1 refl
      empty-IsDeduplicated

abbrev bus : Bus
bus = record { connected = false; start_ok = true; send_ok = true; now = "t5"; sent = [] }

abbrev officer : TokenPayload
officer = record { sub = "ada"; role = "ciso"; mfa_verified = true; exp = 9000; iat = 0 }

abbrev row_of : Result (Alert × Db ℕ) → Alert × Db ℕ
row_of (ok r) = r
row_of (err e) = (Engine.new_alert "" "" spec 0, empty)

abbrev acked : Alert × Db ℕ
acked = row_of (acknowledge_alert env clock officer "" "seen" raised.2)

acknowledge_alert-IsDeduplicated_example : IsDeduplicated env acked.1
unfolding acknowledge_alert sc_tpcrs.Jwt.require_role sc_tpcrs.Monitoring.Router.get_alert
    upsert_alert Engine.existing_alert Engine.new_alert
acknowledge_alert-IsDeduplicated_example =
    acknowledge_alert-IsDeduplicated env strokes_never_repeat clock officer "" "seen" raised.2
      acked.1 acked.0 refl raised-IsDeduplicated

abbrev closed : Alert × Db ℕ
closed = row_of (resolve_alert env clock officer "" "done" raised.2)

resolve_alert-IsDeduplicated_example : IsDeduplicated env closed.1
unfolding resolve_alert sc_tpcrs.Jwt.require_role sc_tpcrs.Monitoring.Router.get_alert upsert_alert
    Engine.existing_alert Engine.new_alert
resolve_alert-IsDeduplicated_example =
    resolve_alert-IsDeduplicated env clock officer "" "done" raised.2 closed.1 closed.0 refl
      raised-IsDeduplicated

abbrev cve_event : Event
cve_event = record {
  event_type = some "cve.found";
  emitted_at = none;
  payload = some (("vendor_id", str "v1") ∷ ("cve_id", str "CVE-2024-1") ∷ []);
}

run_consumer-IsDeduplicated_example :
    IsDeduplicated env
      (run_consumer env
        ((clock, cve_event) ∷ (clock, cve_event) ∷ [])
        (record { db = empty; bus = bus })).db
run_consumer-IsDeduplicated_example =
    run_consumer-IsDeduplicated env ((clock, cve_event) ∷ (clock, cve_event) ∷ [])
      (record { db = empty; bus = bus }) empty-IsDeduplicated

abbrev whole : Floats
whole = record {
  F = ℕ;
  literal = λ s. 100;
  of_int = λ n. n;
  add = λ a b. a + b;
  sub = λ a b. a - b;
  mul = λ a b. a * b / 100;
  div = λ a b. a / b;
  lt = ltb;
  le = leb;
  round2 = λ x. x;
  fixed1 = decimal;
  repr = decimal;
}

abbrev sources : Sources ℕ
sources = record {
  adapters = record {
    shodan = λ v. ok (40, "rdp" ∷ "https" ∷ []);
    misp = λ v. ok 3;
    abuseipdb = λ v. ok 1;
  };
  rng = record { random = λ v n. 0; randint = λ v n. 1 };
  drift_critical = 20;
  drift_warning = 8;
}

run_sweep-Counted_example :
    let (result, all_touched, db') =
      run_sweep whole env sources clock "ada" ("v1" ∷ "v2" ∷ []) 1 empty in
    IsDeduplicated env db'
    × (result.totals.alerts_opened + result.totals.alerts_updated ≡ length all_touched)
    × (result.totals.snapshots_written ≤ result.vendors_swept)
    × ((rows : List (Snapshot ℕ)) × SnapshotsOf whole env sources 5 ("v1" ∷ "v2" ∷ []) rows
        × (db'.snapshots ≡ [] ++ rows)
        × (result.totals.snapshots_written ≡ length rows))
run_sweep-Counted_example =
    run_sweep-Counted whole env sources clock "ada" ("v1" ∷ "v2" ∷ []) 1 empty empty-IsDeduplicated
