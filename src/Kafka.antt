-- ===== src/Kafka.antt =====
-- shared/py-common/sc_tpcrs_common/kafka_base.py and kafka_topics.py: the event envelope, the
-- fail-soft producer, and the consumer loop. Whether the broker accepts a connection and a message
-- is its business (aiokafka), and comes with the state as two flags.
mod Producer
mod Consumer
mod Delivery
pub use Producer.*
pub use Delivery.*
unfoldable pub use Producer.{envelope, get_producer, publish}
unfoldable pub use Consumer.{consume}
pub use Consumer.{consume-append, consume-IsInvariant}
