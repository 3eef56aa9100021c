-- ===== src/Inventory.antt =====
-- inventory-service: stock, reservations and their release (services/inventory-service/src).
pub mod Store
pub mod Reserve
pub mod Release
pub mod Events
pub mod Consumer
pub mod Expiry
mod Tests
