-- ===== src/Monitoring.antt =====
-- services/monitoring-service/app: posture snapshots, deduplicated alerts and their lifecycle, the
-- sweep over the vendors, and the consumer of the other services' events.
pub mod Models
pub mod Posture
pub mod Engine
pub mod Events
pub mod Sweep
pub mod Router
pub mod Dedup
pub mod Snapshots
pub mod Runs
mod Tests
