-- ===== src/Vendor.antt =====
-- services/vendor-service/app: vendors, their risk tier and onboarding lifecycle, and the security
-- questionnaires that they answer.
pub mod Lifecycle
pub mod Tiering
pub mod QuestionBank
pub mod Models
pub mod Vendors
pub mod Questionnaires
pub mod Laws
pub mod Invariant
pub mod Steps
mod Tests
