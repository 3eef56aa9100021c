-- ===== src/Order/FromSkus.antt =====
-- services/order-service/src/order_handlers.rs: `create_order_from_skus`, which prices the items and hands
-- the order to `create_order`. The customer fields are left out.
pub mod Charged
mod Tests
use text.Mathlib.Text.{◌==◌ as str_eq}
use peanut_pos.Base.{ℕ, String, not, Option, none, some, List, [], ◌∷◌, if◌then◌else◌}
use peanut_pos.Base.Int.{ℤ, pos, leb_ℤ}
use peanut_pos.Base.Api.{ApiError, forbidden_missing_role, bad_request, internal, Result, ok, err}
use peanut_pos.Order.Tables.{Order}
use peanut_pos.Order.Pricing
use peanut_pos.Order.Pricing.{
  ItemInput, ComputeOrderRequest, ComputedItemSummary, Sums, products_by_sku, no_sums, add_lines,
  resolve_tax_rate_bps,
}
use peanut_pos.Order.Pricing.FromSkus.{sku_total}
use peanut_pos.Order.Create
use peanut_pos.Order.Create.{PaymentRequest, NewItem, NewOrder, World, may_create, create_order}

pub record NewOrderSkuItem : Type 0 where
  pub sku : String
  pub quantity : ℤ

pub record NewOrderFromSku : Type 0 where
  pub items : List NewOrderSkuItem
  pub discount_percent_bp : Option ℤ
  pub tax_rate_bps : Option ℤ
  pub location_id : Option ℕ
  pub pos_instance_id : Option ℕ
  pub payment_method : String
  pub payment : Option PaymentRequest
  pub store_id : Option ℕ
  pub idempotency_key : Option String

-- The items as the loop of a quote reads them: each has its SKU and no product id.
unfoldable pub inputs : List NewOrderSkuItem → List ItemInput
inputs [] = []
inputs (i ∷ is) = record { sku = some i.sku; product_id = none; quantity = i.quantity } ∷ inputs is

-- What `resolve_tax_rate_bps_with_db` is given.
abbrev pub rate_request : NewOrderFromSku → ComputeOrderRequest
rate_request req = record {
  items = inputs req.items;
  discount_percent_bp = req.discount_percent_bp;
  location_id = req.location_id;
  pos_instance_id = req.pos_instance_id;
  tax_rate_bps = req.tax_rate_bps;
}

unfoldable pub order_items : List ComputedItemSummary → List NewItem
order_items [] = []
order_items (l ∷ ls) =
    record {
      product_id = l.product_id;
      quantity = l.qty;
      unit_price = l.unit_price_cents;
      line_total = l.line_subtotal_cents;
    }
    ∷ order_items ls

unfoldable pub new_order : NewOrderFromSku → Sums → ℤ → NewOrder
unfolding order_items
new_order req s total = record {
  items = order_items s.items;
  payment_method = req.payment_method;
  payment = req.payment;
  total = total;
  store_id = req.store_id;
  idempotency_key = req.idempotency_key;
}

module _ (trim to_lowercase to_ascii_uppercase : String → String)
    (parse_i32 : String → Option ℤ) where
  unfoldable pub check_skus : List NewOrderSkuItem → Result ApiError (Unit {0})
  check_skus [] = ok tt
  check_skus (i ∷ is) =
      if leb_ℤ i.quantity (pos 0)
      then err (bad_request "invalid_quantity")
      else if str_eq (trim i.sku) ""
      then err (bad_request "missing_sku")
      else check_skus is

  unfoldable pub charge :
      Pricing.Env → Create.Env → NewOrderFromSku → Sums → World → Result ApiError Order × World
  unfolding sku_total resolve_tax_rate_bps create_order new_order
  charge pricing env req s w =
      let rate =
        resolve_tax_rate_bps trim to_ascii_uppercase parse_i32 pricing env.sec.tenant_id
          (rate_request req) in
      create_order trim to_lowercase env
        (new_order req s (sku_total s req.discount_percent_bp rate)) w

  unfoldable pub priced_order :
      Pricing.Env → Create.Env → NewOrderFromSku → World → Result ApiError Order × World
  unfolding add_lines inputs charge
  priced_order pricing env req w =
      if pricing.fails products_by_sku
      then (err internal, w)
      else elim (add_lines trim to_ascii_uppercase parse_i32 pricing env.sec.tenant_id
          (inputs req.items) (no_sums trim to_ascii_uppercase parse_i32)) [
            | err e ↦ (err e, w)
            | ok s ↦ charge pricing env req s w
          ]

  unfoldable pub create_order_from_skus :
      Pricing.Env → Create.Env → NewOrderFromSku → World → Result ApiError Order × World
  unfolding check_skus priced_order
  create_order_from_skus pricing env req w =
      if not (may_create env.sec)
      then (err (forbidden_missing_role "admin_or_manager_or_support"), w)
      else elim req.items [
        | [] ↦ (err (bad_request "missing_items"), w)
        | _ ∷ _ ↦ elim (check_skus req.items) [
          | err e ↦ (err e, w)
          | ok _ ↦ priced_order pricing env req w
        ]
      ]
