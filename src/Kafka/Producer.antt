-- ===== src/Kafka/Producer.antt =====
-- `envelope` and `KafkaEventProducer` of kafka_base.py; the topics of kafka_topics.py.
use sc_tpcrs.Prelude.{String, Bool, true, false, Option, some, List, [], ◌∷◌, ◌++◌, if◌then◌else◌}
use sc_tpcrs.Prelude.Value.{Dict}

abbrev pub vendor_lifecycle_events : String
vendor_lifecycle_events = "vendor.lifecycle.events"

abbrev pub risk_score_updates : String
risk_score_updates = "risk.score.updates"

abbrev pub risk_anomaly_alerts : String
risk_anomaly_alerts = "risk.anomaly.alerts"

abbrev pub sbom_ingestion_events : String
sbom_ingestion_events = "sbom.ingestion.events"

abbrev pub cve_alerts : String
cve_alerts = "cve.alerts"

abbrev pub compliance_assessment_events : String
compliance_assessment_events = "compliance.assessment.events"

abbrev pub monitoring_alerts : String
monitoring_alerts = "monitoring.alerts"

abbrev pub incident_events : String
incident_events = "incident.events"

-- An event as a consumer reads it: a dict whose keys may be missing.
pub record Event : Type 0 where
  pub event_type : Option String
  pub emitted_at : Option String
  pub payload : Option Dict

pub record Message : Type 0 where
  pub topic : String
  pub key : Option String
  pub event : Event

-- The producer, `connected` once it has been started, and what the broker has accepted.
pub record Bus : Type 0 where
  pub connected : Bool
  pub start_ok : Bool
  pub send_ok : Bool
  pub now : String
  pub sent : List Message

unfoldable pub envelope : String → Dict → String → Event
envelope event_type payload now = record {
  event_type = some event_type;
  emitted_at = some now;
  payload = some payload;
}

-- Returns whether there is a producer, and the state with the connection kept.
unfoldable pub get_producer : Bus → Bool × Bus
get_producer b =
    if b.connected
    then (true, b)
    else if b.start_ok
    then (true, record b { connected = true })
    else (false, b)

unfoldable pub publish : String → String → Dict → Option String → Bus → Bool × Bus
unfolding envelope get_producer
publish topic event_type payload key b =
    let (started, b') = get_producer b in
    if started
    then if b'.send_ok
      then (
        true,
        record b' {
          sent =
              b'.sent
              ++ record { topic = topic; key = key; event = envelope event_type payload b'.now }
                ∷ [];
        },
      )
      else (false, b')
    else (false, b)
