-- ===== src/Order.antt =====
-- order-service: the pricing of a cart, the creation of an order with its reservation of stock, refunds,
-- exchanges and voids (services/order-service/src/order_handlers.rs), and the consumer of payment events
-- and the outbox worker (services/order-service/src/main.rs).
pub mod Discount
pub mod Policy
pub mod Returnable
pub mod Pricing
pub mod Tables
pub mod Refund
pub mod Create
pub mod Void
pub mod FromSkus
pub mod Exchange
pub mod Outbox
pub mod Payments
mod Tests
