-- ===== src/Order/FromSkus/Tests.antt =====
-- A cart that is quoted and bought.
use peanut_pos.Base.{none, some, [], ◌∷◌}
use peanut_pos.Base.Int.{ℤ, pos, negsuc}
use peanut_pos.Base.Int
use peanut_pos.Base.Table
use peanut_pos.Order.Tables.{Order}
use peanut_pos.Order.Pricing.{
  ComputeOrderRequest, ComputeOrderResponse, ComputedItemSummary, ItemInput, Product,
  resolve_tax_rate_bps,
}
use peanut_pos.Order.Pricing
use peanut_pos.Order.Discount
use peanut_pos.Order.FromSkus
use peanut_pos.Order.FromSkus.{NewOrderFromSku}
use peanut_pos.Order.Create.Tests.{stored_order}

-- The cart of two teas, bought.
abbrev bought : NewOrderFromSku
bought = record {
  items = record { sku = "TEA"; quantity = pos 2 } ∷ [];
  discount_percent_bp = some (pos 1000);
  tax_rate_bps = none;
  location_id = none;
  pos_instance_id = none;
  payment_method = "cash";
  payment = some (record { method = "cash"; amount_cents = pos 1000 });
  store_id = none;
  idempotency_key = none;
}

abbrev bought_order : Order
bought_order = record stored_order { total = pos 877; idempotency_key = none }
