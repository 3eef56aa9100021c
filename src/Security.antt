-- ===== src/Security.antt =====
-- Who may do what: roles, capabilities and the guards of the two security crates
-- (services/common/security/src, services/common/auth/src/guards.rs).
pub mod Role
pub mod Policy
pub mod Guards
pub mod Access
pub mod Tenancy
mod Tests
