-- ===== src/Risk.antt =====
-- services/risk-service/app: the composite risk score of a vendor from six categories, its history, and the
-- detection of anomalies.
pub mod Models
pub mod Sources
pub mod Scoring
pub mod Service
pub mod Scored
pub mod Bounds
mod Tests
