-- ===== src/Monitoring/Dedup.antt =====
-- Deduplication of alerts: the invariant of the alert table, under single operations of the service.
use sc_tpcrs.Prelude.{
  ℕ, ◌≤◌, String, ◌≡◌, refl, sym, ap, inl, inr, Bool, true, false, ◌&&◌, none, some, List, [], ◌∷◌,
  ◌++◌, map, ◌==◌, arith, length, length-append, length-update_where, count_where,
  count_where-append, update_where, find_first, str_eq_of, Bool-cases, Option-cases, ok, Error,
  bind-ok, ok-injective, raise_if-ok, or_else, or_raise, or_raise-ok, raise_if, if◌then◌else◌,
}
use mathlib.Core.List.{map-append}
use native.Mathlib.Numerals.{add-one}
use sc_tpcrs.Prelude.Keyed.{
  count-update_where, map-update_where, select-none, count-update_found, drawn, NeverRepeats,
  drawn-Distinct,
}
use sc_tpcrs.Jwt.{TokenPayload, require_role}
use sc_tpcrs.Kafka.{Bus}
use sc_tpcrs.Monitoring.Models.{Alert, Db, World, Env, audit}
use sc_tpcrs.Monitoring.Engine.{AlertSpec, is_active, bump, new_alert, existing_alert, upsert_alert}
use sc_tpcrs.Monitoring.Events.{Clock, set_published, publish_alerts}
use sc_tpcrs.Monitoring.Router.{
  not_found, get_alert, acknowledged, resolved, store, acknowledge_alert, resolve_alert,
}

module _ {F : Type 0} (env : Env) where
  -- At most one active alert for a vendor and a key; the identifiers are those that were drawn.
  pub record IsDeduplicated (db : Db F) : Type 0 where
    pub at_most_one :
        (vendor_id dedup_key : String) → count_where (is_active vendor_id dedup_key) db.alerts ≤ 1
    pub drawn_ids : map (λ (a : Alert). a.id) db.alerts ≡ drawn env.uuid4 (length db.alerts)

  -- A change of rows in place that makes no alert active keeps the table deduplicated.
  pub change-IsDeduplicated :
      (test : Alert → Bool) (change : Alert → Alert) (db db' : Db F)
      → db'.alerts ≡ update_where test change db.alerts
      → ((a : Alert) → (change a).id ≡ a.id)
      → ((v k : String)
          → count_where (is_active v k) (update_where test change db.alerts)
            ≤ count_where (is_active v k) db.alerts)
      → IsDeduplicated db
      → IsDeduplicated db'
  change-IsDeduplicated test change db db' e same fewer h = record {
    at_most_one = λ v k. rw e (omega (arith, fewer v k, h.at_most_one v k));
    drawn_ids =
        rw
          (
            e,
            map-update_where (λ (a : Alert). a.id) test change same db.alerts,
            length-update_where test change db.alerts,
          )
          h.drawn_ids;
  }

  added-IsDeduplicated :
      (now : ℕ) (spec : AlertSpec) (v : String) (db : Db F)
      → existing_alert v spec.dedup_key db ≡ none
      → IsDeduplicated db
      → IsDeduplicated (record db {
        alerts = db.alerts ++ new_alert (env.uuid4 (length db.alerts)) v spec now ∷ [];
      })
  unfolding new_alert existing_alert
  added-IsDeduplicated now spec v db missing h = record {
    at_most_one = one;
    drawn_ids = rw (map-append, length-append, h.drawn_ids, add-one);
  }
    where
      new : Alert
      new = new_alert (env.uuid4 (length db.alerts)) v spec now

      one : (w k : String) → count_where (is_active w k) (db.alerts ++ new ∷ []) ≤ 1
      one w k = elim (Bool-cases (is_active w k new)) [
        | inr miss ↦
            rw (count_where-append (is_active w k) db.alerts (new ∷ []), miss)
              (omega (arith, h.at_most_one w k))
        | inl hit ↦
            let same_vendor : v ≡ w = str_eq_of v w (ground arith) in
            let same_key : spec.dedup_key ≡ k = str_eq_of spec.dedup_key k (ground arith) in
            let empty : count_where (is_active w k) db.alerts ≡ 0 =
              rw⁻¹ (same_vendor, same_key)
                (select-none (is_active v spec.dedup_key) db.alerts missing) in
            rw (count_where-append (is_active w k) db.alerts (new ∷ []), hit) (omega (arith, empty))
      ]

  -- A successful upsert keeps the alert table deduplicated.
  pub upsert_alert-IsDeduplicated :
      (now : ℕ) (spec : AlertSpec) (db db' : Db F) (alert : Alert) (created : Bool)
      → upsert_alert env now spec db ≡ ok (alert, created, db')
      → IsDeduplicated db
      → IsDeduplicated db'
  unfolding upsert_alert bump
  upsert_alert-IsDeduplicated now spec db db' alert created e h =
      let (v, parsed, rest) =
        bind-ok (or_raise (env.parse_uuid spec.vendor_id) (Error.value_error "badly formed UUID"))
          e in
      elim (Option-cases (existing_alert v spec.dedup_key db)) [
        | inl missing ↦
            let it : db' ≡ record db {
              alerts = db.alerts ++ new_alert (env.uuid4 (length db.alerts)) v spec now ∷ [];
            } =
              table (rw missing at rest) in
            rw it (added-IsDeduplicated now spec v db missing h)
        | inr (old, found) ↦
            let it : db' ≡ record db {
              alerts = update_where (λ (a : Alert). a.id == old.id) (bump spec now) db.alerts;
            } =
              table (rw found at rest) in
            change-IsDeduplicated (λ a. a.id == old.id) (bump spec now) db db' (rw it refl) bump-id
              (λ w k.
                count-update_where (is_active w k) (λ a. a.id == old.id) (bump spec now) (λ a t. t)
                  db.alerts)
              h
      ]
    where
      table : {x y : Alert × Bool × Db F} → ok x ≡ ok y → y.2 ≡ x.2
      table q = cc

      bump-id : (a : Alert) → (bump spec now a).id ≡ a.id
      bump-id a = refl

  pub set_published-IsDeduplicated :
      (alert : Alert) (sent : Bool) (db : Db F)
      → IsDeduplicated db
      → IsDeduplicated (set_published alert sent db)
  unfolding set_published
  set_published-IsDeduplicated alert sent db =
      change-IsDeduplicated (λ a. a.id == alert.id) (λ (a : Alert). record a { published = sent })
        db _ refl (λ a. refl)
        (λ w k.
          count-update_where (is_active w k) (λ a. a.id == alert.id)
            (λ (a : Alert). record a { published = sent }) (λ a t. t) db.alerts)

  -- Publishing sets flags only.
  pub publish_alerts-IsDeduplicated :
      (alerts : List Alert) (w : World F)
      → IsDeduplicated w.db
      → IsDeduplicated (publish_alerts alerts w).db
  unfolding publish_alerts
  publish_alerts-IsDeduplicated [] w h = h
  publish_alerts-IsDeduplicated (alert ∷ alerts) w h =
      publish_alerts-IsDeduplicated alerts _
        (step _ _ (or_else (find_first (λ (a : Alert). a.id == alert.id) w.db.alerts) alert) _ w h)
    where
      step :
          (b sent : Bool) (row : Alert) (bus' : Bus) (v : World F)
          → IsDeduplicated v.db
          → IsDeduplicated
              (if b then record v { db = set_published row sent v.db; bus = bus' } else v).db
      step true sent row bus' v g = set_published-IsDeduplicated row sent v.db g
      step false sent row bus' v g = g

  -- The state of one alert changes, by a change that does not make it active again.
  stored-IsDeduplicated :
      NeverRepeats env.uuid4
      → (id : String) (change : Alert → Alert) (old : Alert) (db db' : Db F)
      → db'.alerts ≡ (store id change db).alerts
      → get_alert id db ≡ some old
      → ((a : Alert) → (change a).id ≡ a.id)
      → ((v k : String) → is_active v k (change old) ≡ true → is_active v k old ≡ true)
      → IsDeduplicated db
      → IsDeduplicated db'
  unfolding store get_alert
  stored-IsDeduplicated never id change old db db' e found same back h =
      change-IsDeduplicated (λ a. a.id == id) change db db' e same
        (λ v k.
          count-update_found (λ (a : Alert). a.id) (is_active v k) change id old db.alerts
            (rw h.drawn_ids (drawn-Distinct env.uuid4 never (length db.alerts))) found (back v k))
        h

  -- A successful acknowledgement keeps the alert table deduplicated, where the drawn identifiers
  -- never repeat.
  pub acknowledge_alert-IsDeduplicated :
      NeverRepeats env.uuid4
      → (clock : Clock) (user : TokenPayload) (id note : String) (db db' : Db F) (out : Alert)
      → acknowledge_alert env clock user id note db ≡ ok (out, db')
      → IsDeduplicated db
      → IsDeduplicated db'
  unfolding acknowledge_alert acknowledged audit
  acknowledge_alert-IsDeduplicated never clock user id note db db' out e h =
      let (writer, allowed, rest) = bind-ok (require_role _ user) e in
      let (old, found, rest') = bind-ok (or_raise (get_alert id db) not_found) rest in
      let (_, open_yet, done) =
        bind-ok (raise_if (old.status == "resolved") (Error.http 409 "alert already resolved"))
          rest' in
      stored-IsDeduplicated never id (acknowledged writer.sub clock.now) old db db'
        (ap (λ (p : Alert × Db F). p.1.alerts) (sym (ok-injective done))) (or_raise-ok _ _ found)
        (λ a. refl) (λ v k t. rw (raise_if-ok _ _ open_yet) t) h

  -- A successful resolution keeps the alert table deduplicated.
  pub resolve_alert-IsDeduplicated :
      (clock : Clock) (user : TokenPayload) (id note : String) (db db' : Db F) (out : Alert)
      → resolve_alert env clock user id note db ≡ ok (out, db')
      → IsDeduplicated db
      → IsDeduplicated db'
  unfolding resolve_alert resolved audit store
  resolve_alert-IsDeduplicated clock user id note db db' out e h =
      let (writer, allowed, rest) = bind-ok (require_role _ user) e in
      let (old, found, done) = bind-ok (or_raise (get_alert id db) not_found) rest in
      change-IsDeduplicated (λ a. a.id == id) (resolved clock.now) db db'
        (ap (λ (p : Alert × Db F). p.1.alerts) (sym (ok-injective done))) (λ a. refl)
        (λ v k.
          count-update_where (is_active v k) (λ a. a.id == id) (resolved clock.now)
            (λ a t. inactive (a.vendor_id == v) (a.dedup_key == k) t) db.alerts)
        h
    where
      inactive : (x y : Bool) {z : Bool} → (x && (y && false)) ≡ true → z ≡ true
      inactive true true t = cc
      inactive true false t = cc
      inactive false y t = cc
