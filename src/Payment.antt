-- ===== src/Payment.antt =====
-- payment-service: payment intents, their table, their handlers and the webhook guard
-- (services/payment-service/src).
pub mod Intent
pub mod Repo
pub mod Handlers
pub mod Webhook
mod Tests
