-- ===== src/Incident/Events.antt =====
-- services/incident-service/app/services/events.py: what is published of an incident, and the consumer
-- that opens incidents from monitoring alerts.
pub mod Once
use sc_tpcrs.Prelude.{
  String, Bool, true, false, not, ◌||◌, Option, none, some, List, [], ◌∷◌, fstring, or_else,
  starts_with, Result, ok, err, ◌>>=◌, if◌then◌else◌,
}
use sc_tpcrs.Prelude.Value.{Value, Dict, null, str, lookup, get_or, truthy, to_text}
use sc_tpcrs.Kafka.{Event, Bus, publish, incident_events, monitoring_alerts, consume}
use sc_tpcrs.Incident.Lifecycle.{meets_auto_open_threshold, category_for_alert_type}
use sc_tpcrs.Incident.Models.{Incident, World}
use sc_tpcrs.Incident.Service.{Env, Call, NewIncident, create_incident, find_by_source_ref}

-- The payload of an incident event.
abbrev pub incident_payload : Incident → Dict
incident_payload incident =
    ("incident_id", str incident.id)
    ∷ ("reference", str incident.reference)
    ∷ ("vendor_id", str incident.vendor_id)
    ∷ ("severity", str incident.severity)
    ∷ ("status", str incident.status)
    ∷ ("category", str incident.category)
    ∷ ("source_ref", elim incident.source_ref [ none ↦ null | some r ↦ str r ])
    ∷ []

unfoldable pub publish_incident_event : Incident → String → Bus → Bool × Bus
publish_incident_event incident event_type bus =
    publish incident_events event_type (incident_payload incident) (some incident.vendor_id) bus

-- The arguments of `create_incident` for an alert.
abbrev pub from_alert : Dict → String → NewIncident
from_alert payload severity =
    let alert_id = to_text (get_or payload "alert_id" null) in
    let alert_type = to_text (get_or payload "alert_type" (str "")) in
    let title = get_or payload "title" null in
    record {
      vendor_id = to_text (get_or payload "vendor_id" null);
      title = if truthy title then to_text title else fstring (severity ∷ " monitoring alert" ∷ []);
      description =
          fstring ("Auto-opened from monitoring alert " ∷ alert_id ∷ " (" ∷ alert_type ∷ ")." ∷ []);
      severity = severity;
      category = category_for_alert_type alert_type;
      source = monitoring_alerts;
      source_ref = some alert_id;
      personal_data_involved = false;
    }

-- What follows the test that no incident has the alert's id.
unfoldable pub auto_open : Env → Call → Dict → String → World → Result World
auto_open env call payload severity w = do
  (incident, db') ←
      create_incident env call "system:incident-events" (from_alert payload severity) w.db
  let (_, bus') = publish_incident_event incident "incident.opened" w.bus
  ok (record w { db = db'; bus = bus' })

unfoldable pub handle_monitoring_alert : Env → Call → Event → World → Result World
handle_monitoring_alert env call event w =
    let payload = or_else event.payload [] in
    let vendor_id = get_or payload "vendor_id" null in
    let alert_id = get_or payload "alert_id" null in
    let severity = to_text (get_or payload "severity" (str "Medium")) in
    if not (truthy vendor_id) || not (truthy alert_id)
    then ok w
    else if not (meets_auto_open_threshold env.settings severity)
    then ok w
    else elim (find_by_source_ref (to_text alert_id) w.db) [
      | some existing ↦ ok w
      | none ↦ auto_open env call payload severity w
    ]

unfoldable pub handle_event : Env → Call × Event → World → Result World
handle_event env (call, event) w =
    let event_type = or_else event.event_type "" in
    if starts_with event_type "monitoring.alert"
    then handle_monitoring_alert env call event w
    else ok w

-- The consumer that `build_consumer` makes, over the messages that it reads.
unfoldable pub run_consumer : Env → List (Call × Event) → World → World
run_consumer env = consume (handle_event env)
