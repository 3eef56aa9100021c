-- ===== src/Customer.antt =====
-- customer-service (services/customer-service/src/main.rs): customers whose email and phone are sealed
-- with a key of their tenant.
pub mod Search
pub mod Store
pub mod Keys
pub mod Update
pub mod Gdpr
mod Tests
