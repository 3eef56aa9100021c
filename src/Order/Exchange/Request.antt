-- ===== src/Order/Exchange/Request.antt =====
-- services/order-service/src/order_handlers.rs: what an exchange asks and answers, and what it works on.
use peanut_pos.Base.{ℕ, String, Bool, Option, List}
use peanut_pos.Base.Int.{ℤ}
use peanut_pos.Order.Tables.{Db}
use peanut_pos.Order.Pricing
use peanut_pos.Order.Create
use peanut_pos.Order.Create.{PaymentRequest, Payment, World}
use peanut_pos.Order.FromSkus.{NewOrderSkuItem}

pub record ExchangeReturnItem : Type 0 where
  pub product_id : ℕ
  pub qty : ℤ

pub record ExchangeRequest : Type 0 where
  pub return_items : List ExchangeReturnItem
  pub new_items : List NewOrderSkuItem
  pub discount_percent_bp : Option ℤ
  pub payment : Option PaymentRequest
  pub idempotency_key : Option String

pub record ExchangeResponse : Type 0 where
  pub original_order_id : ℕ
  pub exchange_order_id : ℕ
  pub refund : Option ℕ
  pub refunded_cents : ℤ
  pub new_order_total_cents : ℤ
  pub net_delta_cents : ℤ
  pub net_direction : String

-- The statements that the handler sends itself.
pub data Site : Type 0 where
  loads_order loads_items begin inserts_return writes_quantity inserts_item counts : Site
  writes_total writes_status links commits : Site

pub record Env : Type 0 where
  pub pricing : Pricing.Env
  pub create : Create.Env
  pub return_id : ℕ
  pub fails : Site → Bool

-- The service's tables, the reservations held, and the new orders that are linked to an original.
pub record Shop : Type 0 where
  pub db : Db
  pub payments : List Payment
  pub held : List ℕ
  pub links : List (ℕ × ℕ)

abbrev pub world_of : Shop → World
world_of s = record {
  orders = s.db.orders;
  items = s.db.items;
  payments = s.payments;
  held = s.held;
}

abbrev pub with_world : Shop → World → Shop
with_world s w = record s {
  db = record s.db { orders = w.orders; items = w.items };
  payments = w.payments;
  held = w.held;
}
