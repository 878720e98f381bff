-- ===== src/Compliance.antt =====
-- services/compliance-service/app: the control library, assessments of vendors against it, and reports.
pub mod Spec
pub mod Library
pub mod Models
pub mod Engine
pub mod Service
pub mod Reporting
pub mod Router
pub mod Events
pub mod Agreement
pub mod Laws
pub mod Stored
pub mod Reports
mod Tests
