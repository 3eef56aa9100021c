-- ===== src/Lib.antt =====
-- Peanut POS: the core logic of the services, modelled and proved.
--
-- The program is a set of HTTP services around one PostgreSQL database each. order-service prices a
-- cart, reserves stock at inventory-service, stores the order with its payment, and voids, refunds and
-- exchanges it; auth-service logs users in; payment-service keeps payment intents and guards its
-- webhooks; customer-service keeps customers with their contact data sealed; integration-gateway limits
-- and counts the requests of a key. All of them take the caller's tenant and roles from
-- common-security.
--
-- Base: what the parts share. Base.Int has signed integers with the wrapping and saturating operations
-- of i32 and i64; Base.Table the SQL statements on a table as a list of rows; Base.Tx a handler's work
-- as a state monad that may fail, and the transaction that is dropped on an error; Base.Tx.Keeps the
-- rules for its invariants; Base.Api the error type of services/common/http-errors/src/lib.rs.
-- Security: services/common/security/src (roles, capabilities and their counters) and the guards of
-- services/common/auth/src/guards.rs. Security.Access and Security.Tenancy hold the proofs.
-- Payment: services/payment-service/src. Payment.Intent is the enum and `is_valid_transition`,
-- Payment.Repo the table of repo.rs, Payment.Handlers the handlers of payment_handlers.rs (`serve` is a
-- request, `session` a sequence of them), Payment.Webhook the middleware of webhook.rs.
-- Inventory: services/inventory-service/src/reservation_handlers.rs on the tables of its migrations.
-- Inventory.Reserve is `create_reservation`, Inventory.Release is `release_reservation`; of main.rs,
-- Inventory.Events has the handlers of events, Inventory.Consumer the consumer with its inbox, and
-- Inventory.Expiry the sweep over reservations that are due.
-- Order: services/order-service/src/order_handlers.rs. Order.Pricing is `compute_with_db_inner` with
-- `resolve_tax_rate_bps_with_db` (the discount is in Order.Discount), Order.FromSkus
-- `create_order_from_skus`, whose total is in Order.Pricing.FromSkus, Order.Refund `refund_order` (its
-- lines are checked in Order.Returnable, its policy is in Order.Policy), Order.Create `create_order`,
-- Order.Void `void_order`, Order.Exchange `exchange_order`, with its requests in Order.Exchange.Request
-- and its transaction in Order.Exchange.Return; Order.Tables has their tables. Of
-- services/order-service/src/main.rs, Order.Payments is the consumer of payment events and Order.Outbox
-- the worker that sends the rows of the outbox, tick by tick.
-- Gateway: services/integration-gateway/src. Gateway.RateLimiter is the limiter in memory of
-- rate_limiter.rs, Gateway.Usage the tracker of usage.rs, whose `run` is a sequence of uses and of the
-- two flushes.
-- Auth: services/auth-service/src. Auth.Store has the rows of users and of refresh tokens; Auth.Login
-- is `login_user` of user_handlers.rs, Auth.Session `refresh_session` and `logout_user`, Auth.Tokens
-- the part of tokens.rs that issues and consumes refresh tokens, Auth.Mfa the codes of mfa.rs,
-- Auth.Enrollment the handlers of mfa_handlers.rs, and Auth.Users the handlers by which administrators
-- keep users.
-- Money: services/common/money/src/lib.rs, the rounding modes and the amounts in cents.
-- Crypto: services/common/crypto/src/lib.rs, sealing and opening under a key, with the ciphers in a
-- record.
-- Customer: services/customer-service/src/main.rs. Customer.Store has the rows, Customer.Keys the data
-- keys of a tenant, their cache within a request and `get_customer_impl`, Customer.Update
-- `update_customer_impl`, Customer.Search `search_customers_impl`, Customer.Gdpr the export and the
-- erasure of a customer and `create_customer_impl`; `session` is a sequence of its calls that write.
--
-- Identifiers and times are natural numbers, texts are texts, quantities and amounts are integers with
-- the source's wrap-around or saturation written out. NUMERIC(10,2) amounts are whole cents; the refund
-- total is kept in ten-thousandths of a cent until its column rounds it. A statement that the database
-- may refuse carries a flag, so that a theorem about all flags covers every refusal. All recursion is
-- structural: no definition has fuel, and the ticks of the outbox worker are counted by an argument.
-- What lies outside the repository is an argument: ciphers, hashes and signatures, the password hash,
-- Base32, and the parsers and text functions of Rust's library (`trim`, lower and upper case).
--
-- Not modelled: the tenants and signing keys of auth-service, product-service, loyalty-service, the
-- analytics and audit tools, token verification, the Kafka events and metrics that most handlers emit,
-- listings and reports, the Redis limiter, the frontends and the infrastructure.
pub mod Base
pub mod Security
pub mod Payment
pub mod Inventory
pub mod Order
pub mod Gateway
pub mod Auth
pub mod Money
pub mod Crypto
pub mod Customer
