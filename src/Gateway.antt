-- ===== src/Gateway.antt =====
-- The integration gateway (services/integration-gateway/src).
pub mod RateLimiter
pub mod Usage
mod Tests
