-- ===== src/Auth.antt =====
-- services/auth-service.
pub mod Store
pub mod Mfa
pub mod Tokens
pub mod Login
pub mod Session
pub mod Enrollment
pub mod Users
mod Tests
