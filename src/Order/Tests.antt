-- ===== src/Order/Tests.antt =====
-- Runs of the order service's operations, and the theorems at them.
use peanut_pos.Base.{String, ◌≡◌, refl, true, false, Option, none, some, [], ◌∷◌, arith}
use peanut_pos.Base.Int.{ℤ, pos, negsuc}
use peanut_pos.Base.Int
use peanut_pos.Base.Table
use peanut_pos.Base.Api.{ok}
use peanut_pos.Security.Role.{SecurityContext, manager}
use peanut_pos.Order.Tables.{Db, Order, OrderItem}
use peanut_pos.Order.Pricing.{
  ComputeOrderRequest, ComputeOrderResponse, ComputedItemSummary, ItemInput, Product,
  compute_with_db_inner, resolve_tax_rate_bps,
}
use peanut_pos.Order.Pricing
use peanut_pos.Order.Discount
use peanut_pos.Order.Pricing.Bounds.{Fair}
use peanut_pos.Order.Pricing.Quote.{compute_with_db_inner-Fair}
use peanut_pos.Order.Refund.{RefundRequest, refund_order}
use peanut_pos.Order.Refund
use peanut_pos.Order.Refund.Sold.{WellFormed}
use peanut_pos.Order.Refund.Limit.{refund_order-WellFormed}
use peanut_pos.Order.Void.{void_order}
use peanut_pos.Order.Void
use peanut_pos.Order.Void.Guard.{Voided, void_order-Voided}

abbrev pub text : String → String
text s = s

abbrev pub number : String → Option ℤ
number s = some (pos 825)

abbrev pub boss : SecurityContext
boss = record { tenant_id = 7; roles = manager ∷ [] }

abbrev tea : Product
tea = record {
  tenant_id = 7;
  id = 3;
  price_cents = pos 450;
  sku = some "TEA";
  tax_code = none;
  active = true;
}

abbrev pub catalogue : Pricing.Env
catalogue = record {
  products = tea ∷ [];
  overrides = [];
  default_rate = some "825";
  headers = λ h. none;
  fails = λ s. false;
}

-- Two teas, with 10 % off.
abbrev cart : ComputeOrderRequest
cart = record {
  items = record { sku = some "TEA"; product_id = none; quantity = pos 2 } ∷ [];
  discount_percent_bp = some (pos 1000);
  location_id = none;
  pos_instance_id = none;
  tax_rate_bps = none;
}

abbrev pub quote : ComputeOrderResponse
quote = record {
  items =
      record {
        product_id = 3;
        qty = pos 2;
        unit_price_cents = pos 450;
        line_subtotal_cents = pos 900;
      }
      ∷ [];
  subtotal_cents = pos 900;
  discount_cents = pos 90;
  tax_cents = pos 67;
  total_cents = pos 877;
}

cart_quoted : compute_with_db_inner text text number catalogue 7 cart ≡ ok quote
unfolding compute_with_db_inner Pricing.last_where Pricing.add_line Discount.discount_of Int.clamp64
    Int.◌*ℤ◌ Int.◌+ℤ◌ Discount.clamp_bps Int.◌/ℤ◌ Int.wrap64 Discount.taxable_net Int.max_ℤ Int.◌-ℤ◌
    Discount.discount_on_taxable Pricing.newest Table.select
cart_quoted = refl

compute_with_db_inner-Fair_example : Fair quote
compute_with_db_inner-Fair_example =
    compute_with_db_inner-Fair text text number catalogue 7 cart quote (omega arith, tt) cart_quoted
      (omega arith)

abbrev sold : Order
sold = record {
  id = 1;
  tenant_id = 7;
  total = pos 900;
  status = "COMPLETED";
  store_id = none;
  created_at = 1000;
  payment_method = "cash";
  idempotency_key = none;
}

abbrev two_teas : OrderItem
two_teas = record {
  id = 11;
  order_id = 1;
  product_id = 3;
  quantity = pos 2;
  returned_quantity = pos 0;
  unit_price = pos 450;
}

abbrev pub shop : Db
shop = record {
  orders = sold ∷ [];
  items = two_teas ∷ [];
  returns = [];
  return_items = [];
  policies = [];
  overrides = [];
}

abbrev till : Refund.Env
till = record { sec = boss; now = 2000; override_token = none; return_id = 50; fails = λ s. false }

abbrev one_back : RefundRequest
one_back = record { order_id = 1; items = record { product_id = 3; quantity = pos 1 } ∷ [] }

one_returned :
    (refund_order till one_back shop).1.items ≡ record two_teas { returned_quantity = pos 1 } ∷ []
unfolding refund_order Int.wrap32 Int.◌-ℤ◌ Int.◌+ℤ◌
one_returned = refl

refund_order-WellFormed_example : WellFormed (refund_order till one_back shop).1
refund_order-WellFormed_example =
    refund_order-WellFormed till one_back shop
      (((omega arith, omega arith, omega arith), tt), ((λ e. refl, tt), tt))

abbrev pending : Order
pending = record sold { status = "PENDING" }

abbrev open_shop : Db
open_shop = record shop { orders = pending ∷ [] }

abbrev desk : Void.Env
desk = record {
  sec = boss;
  gateway_voids = true;
  meanwhile = λ db. db;
  read_fails = false;
  update_fails = false;
}

pending_voided : (void_order text desk 1 open_shop).0 ≡ ok (record pending { status = "VOIDED" })
unfolding void_order
pending_voided = refl

void_order-Voided_example :
    Voided desk 1 open_shop
      (void_order text desk 1 open_shop).1
      (record pending { status = "VOIDED" })
void_order-Voided_example =
    void_order-Voided text desk 1 open_shop (record pending { status = "VOIDED" }) pending_voided
