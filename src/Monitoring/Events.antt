-- ===== src/Monitoring/Events.antt =====
-- services/monitoring-service/app/services/events.py: publishing alerts, and the consumer of the other
-- services' events. An alert that is published is the row of the database session, so that its
-- `published` flag is set in the table.
use sc_tpcrs.Prelude.{
  ℕ, String, Bool, true, not, none, some, List, [], ◌∷◌, ◌==◌, update_where, find_first, fstring,
  starts_with, or_else, Result, ok, ◌>>=◌, if◌then◌else◌,
}
use sc_tpcrs.Prelude.Value.{str, Dict, Detail, Details}
use sc_tpcrs.Kafka.{
  Event, Bus, publish, consume, monitoring_alerts, cve_alerts, compliance_assessment_events,
  risk_anomaly_alerts,
}
use sc_tpcrs.Monitoring.Models.{Alert, Db, World, Env, audit}
use sc_tpcrs.Monitoring.Engine.{AlertSpec, alert_from_event, upsert_alert}

abbrev pub alert_payload : Alert → Dict
alert_payload alert =
    ("alert_id", str alert.id)
    ∷ ("vendor_id", str alert.vendor_id)
    ∷ ("alert_type", str alert.alert_type)
    ∷ ("severity", str alert.severity)
    ∷ ("title", str alert.title)
    ∷ ("status", str alert.status)
    ∷ []

unfoldable pub publish_alert : Alert → Bus → Bool × Bus
publish_alert alert bus =
    publish monitoring_alerts "monitoring.alert.raised" (alert_payload alert) (some alert.vendor_id)
      bus

-- What a message's handling takes from outside: the time and its text.
pub record Clock : Type 0 where
  pub now : ℕ
  pub now_text : String

abbrev raised_details : AlertSpec → Details
raised_details spec =
    ("alert_type", Detail.value (str spec.alert_type))
    ∷ ("severity", Detail.value (str spec.severity))
    ∷ ("source", Detail.value (str spec.source))
    ∷ []

unfoldable pub topic_hint_of : String → String
topic_hint_of event_type =
    if starts_with event_type "cve."
    then cve_alerts
    else if starts_with event_type "compliance."
    then compliance_assessment_events
    else if starts_with event_type "risk.anomaly"
    then risk_anomaly_alerts
    else event_type

module _ {F : Type 0} where
  -- `alert.published = ok` on the row of the alert.
  unfoldable pub set_published : Alert → Bool → Db F → Db F
  set_published alert sent db = record db {
    alerts =
        update_where (λ (a : Alert). a.id == alert.id)
          (λ (a : Alert). record a { published = sent }) db.alerts;
  }

  -- An alert is an object of the session: what is read of it is the row as it is then.
  abbrev row_of : Alert → Db F → Alert
  row_of alert db = or_else (find_first (λ (a : Alert). a.id == alert.id) db.alerts) alert

  unfoldable pub publish_alerts : List Alert → World F → World F
  unfolding set_published publish_alert
  publish_alerts [] w = w
  publish_alerts (alert ∷ alerts) w =
      let row = row_of alert w.db in
      let (sent, bus') = publish_alert row w.bus in
      let w' =
        if not row.published
        then record w { db = set_published row sent w.db; bus = bus' }
        else w in
      publish_alerts alerts w'

  -- The audit row of an alert that was raised.
  abbrev pub logged : Env → Clock → AlertSpec → Bool → Db F → Db F
  logged env clock spec created db =
      audit env "system:monitoring-events" (if created then "ALERT_RAISED" else "ALERT_UPDATED")
        (fstring ("vendor:" ∷ spec.vendor_id ∷ [])) (some (raised_details spec)) clock.now_text db

  -- What follows `if spec is None: return`. The flag is written only if the event was sent.
  unfoldable pub raise_alert : Env → Clock → AlertSpec → World F → Result (World F)
  raise_alert env clock spec w = do
    (alert, created, db') ← upsert_alert env clock.now spec w.db
    let db'' = logged env clock spec created db'
    let (sent, bus') = publish_alert alert w.bus
    ok (record w { db = if sent then set_published alert true db'' else db''; bus = bus' })

  unfoldable pub handle_hinted : Env → Clock → String → Event → World F → Result (World F)
  handle_hinted env clock topic_hint event w = do
    spec ← alert_from_event env topic_hint event
    elim spec [ none ↦ ok w | some s ↦ raise_alert env clock s w ]

  unfoldable pub handle_event : Env → Clock × Event → World F → Result (World F)
  handle_event env (clock, event) w =
      handle_hinted env clock (topic_hint_of (or_else event.event_type "")) event w

  -- The consumer that `build_consumer` makes, over the messages that it reads.
  unfoldable pub run_consumer : Env → List (Clock × Event) → World F → World F
  run_consumer env = consume (handle_event env)
