-- ===== src/Kafka/Delivery.antt =====
-- What the fail-soft producer adds to the messages that the broker has accepted.
use sc_tpcrs.Prelude.{
  String, ◌≡◌, refl, Bool, true, false, ◌&&◌, ◌||◌, Option, some, List, [], ◌∷◌, ◌++◌,
}
use sc_tpcrs.Prelude.Value.{Dict}
use sc_tpcrs.Kafka.Producer.{Bus, Message, envelope, publish}

-- The broker accepts a connection, or has one, and accepts messages.
abbrev pub accepts : Bus → Bool
accepts b = (b.connected || b.start_ok) && b.send_ok

-- The message has the topic, the key, the type of event and the payload.
pub record Carries (of_topic of_type : String) (with_payload : Dict) (under : Option String)
    (m : Message) : Type 0 where
  pub topic : m.topic ≡ of_topic
  pub key : m.key ≡ under
  pub event_type : (m.event).event_type ≡ some of_type
  pub payload : (m.event).payload ≡ some with_payload

-- One message is added, and the broker accepts further ones.
pub record Added (topic event_type : String) (payload : Dict) (key : Option String) (b b' : Bus)
    : Type 0 where
  pub message : Message
  pub carries : Carries topic event_type payload key message
  pub sent : b'.sent ≡ b.sent ++ message ∷ []
  pub accepting : accepts b' ≡ true

module _ (topic event_type : String) (payload : Dict) (key : Option String) where
  abbrev bus_of : Bool → Bool → Bool → String → List Message → Bus
  bus_of connected start_ok send_ok now sent = record {
    connected = connected;
    start_ok = start_ok;
    send_ok = send_ok;
    now = now;
    sent = sent;
  }

  abbrev after : Bus → Bus
  after b = (publish topic event_type payload key b).1

  carried :
      (now : String)
      → Carries topic event_type payload key
          (record { topic = topic; key = key; event = envelope event_type payload now })
  unfolding sc_tpcrs.Kafka.Producer.envelope
  carried now = record { topic = refl; key = refl; event_type = refl; payload = refl }

  added :
      (connected start_ok send_ok : Bool) (now : String) (sent : List Message)
      → let b = bus_of connected start_ok send_ok now sent in
        accepts b ≡ true → Added topic event_type payload key b (after b)
  unfolding publish sc_tpcrs.Kafka.Producer.get_producer
  added true start_ok true now sent h = record {
    message = record { topic = topic; key = key; event = envelope event_type payload now };
    carries = carried now;
    sent = refl;
    accepting = refl;
  }
  added false true true now sent h = record {
    message = record { topic = topic; key = key; event = envelope event_type payload now };
    carries = carried now;
    sent = refl;
    accepting = refl;
  }
  added true start_ok false now sent h = absurd cc
  added false true false now sent h = absurd cc
  added false false send_ok now sent h = absurd cc

  pub publish-Added : (b : Bus) → accepts b ≡ true → Added topic event_type payload key b (after b)
  publish-Added b h = added b.connected b.start_ok b.send_ok b.now b.sent h

  refused :
      (connected start_ok send_ok : Bool) (now : String) (sent : List Message)
      → let b = bus_of connected start_ok send_ok now sent in
        accepts b ≡ false → ((after b).sent ≡ b.sent) × (accepts (after b) ≡ false)
  unfolding publish sc_tpcrs.Kafka.Producer.get_producer
  refused true start_ok true now sent h = absurd cc
  refused true start_ok false now sent h = (refl, refl)
  refused false true true now sent h = absurd cc
  refused false true false now sent h = (refl, refl)
  refused false false send_ok now sent h = (refl, refl)

  pub publish_refused :
      (b : Bus) → accepts b ≡ false → ((after b).sent ≡ b.sent) × (accepts (after b) ≡ false)
  publish_refused b h = refused b.connected b.start_ok b.send_ok b.now b.sent h
