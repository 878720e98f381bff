-- ===== src/Auth.antt =====
-- services/auth-service/app: the users, the password and the one-time codes, and the routes of /auth.
pub mod Models
pub mod Security
pub mod Routes
pub mod Login
pub mod Session
pub mod SignIn
pub mod Seeding
mod Tests
