-- ===== src/Incident.antt =====
-- services/incident-service/app: incidents under response, their lifecycle, timeline and regulatory
-- notifications, the routes, and the consumer of monitoring alerts.
pub mod Lifecycle
pub mod Models
pub mod Notifications
pub mod Service
pub mod Router
pub mod Events
pub mod Effects
pub mod Change
pub mod Keys
pub mod Rows
pub mod Drafts
pub mod Drafted
pub mod Operations
pub mod Openings
pub mod Requests
mod Tests
