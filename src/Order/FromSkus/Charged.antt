-- ===== src/Order/FromSkus/Charged.antt =====
-- The total that an order from SKUs is charged.
use peanut_pos.Order.Tables.{Order}
use peanut_pos.Order.Pricing
use peanut_pos.Order.Pricing.{
  ComputeOrderRequest, ComputedItemSummary, check_items, fetched, priced,
}
use peanut_pos.Order.Create
