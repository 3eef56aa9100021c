-- ===== src/Order/Tables.antt =====
-- The tables of services/order-service/migrations that the order handlers write. Identifiers and times
-- are numbers, quantities PostgreSQL INTEGERs, and NUMERIC(10,2) amounts whole cents.
use peanut_pos.Base.{ℕ, String, Bool, Option, List, ◌==◌, ◌&&◌}
use peanut_pos.Base.Int.{ℤ}

pub record Order : Type 0 where
  pub id : ℕ
  pub tenant_id : ℕ
  pub total : ℤ
  pub status : String
  pub store_id : Option ℕ
  pub created_at : ℕ
  pub payment_method : String
  pub idempotency_key : Option String

pub record OrderItem : Type 0 where
  pub id : ℕ
  pub order_id : ℕ
  pub product_id : ℕ
  pub quantity : ℤ
  pub returned_quantity : ℤ
  pub unit_price : ℤ

pub record OrderReturn : Type 0 where
  pub id : ℕ
  pub order_id : ℕ
  pub tenant_id : ℕ
  pub total : ℤ

pub record ReturnItem : Type 0 where
  pub return_id : ℕ
  pub order_item_id : ℕ
  pub quantity : ℤ
  pub line_total : ℤ

pub record ReturnPolicy : Type 0 where
  pub tenant_id : ℕ
  pub location_id : Option ℕ
  pub allow_window_days : ℕ
  pub restock_fee_bps : ℕ
  pub manager_override_allowed : Bool
  pub updated_at : ℕ

pub record ReturnOverride : Type 0 where
  pub id : ℕ
  pub tenant_id : ℕ
  pub order_id : ℕ
  pub used_at : Option ℕ

pub record Db : Type 0 where
  pub orders : List Order
  pub items : List OrderItem
  pub returns : List OrderReturn
  pub return_items : List ReturnItem
  pub policies : List ReturnPolicy
  pub overrides : List ReturnOverride

-- WHERE id = $1 AND tenant_id = $2.
abbrev pub is_order : ℕ → ℕ → Order → Bool
is_order id t r = (r.id == id) && (r.tenant_id == t)

abbrev pub of_order : ℕ → OrderItem → Bool
of_order id r = r.order_id == id

abbrev pub has_id : ℕ → OrderItem → Bool
has_id id r = r.id == id
