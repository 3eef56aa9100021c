-- ===== src/Order/Pricing/FromSkus.antt =====
-- services/order-service/src/order_handlers.rs: the total that `create_order_from_skus` charges for the
-- sums of its items, beside the quote's.
use peanut_pos.Base.{
  ℕ, ◌*◌, ◌+◌, ◌/◌, ◌≡◌, ◌≤◌, refl, ap, ◌∙◌, Bool-cases, inl, inr, Option, List, arith,
}
use peanut_pos.Base.Int.{ℤ, pos, ltb_ℤ, saturating_add, saturating_sub}
use peanut_pos.Order.Pricing.{Sums, ComputedItemSummary, response}
use peanut_pos.Order.Discount.{discount_of, taxable_net, share_of}
use peanut_pos.Order.Pricing.Bounds.{discount_of-bounds, taxable_net-bounds, share_of-pos}

-- The tax is computed without the quote's test for a taxable line.
unfoldable pub sku_total : Sums → Option ℤ → ℤ → ℤ
sku_total s bp rate =
    let discount = discount_of s.subtotal bp in
    let tax = share_of (taxable_net s.subtotal discount s.taxable) rate in
    saturating_add (saturating_sub s.subtotal discount) tax

no_tax :
    (s t rate : ℕ) (bp : Option ℤ)
    → t ≤ 0
    → s ≤ 3000000000
    → share_of (taxable_net (pos s) (discount_of (pos s) bp) (pos t)) (pos rate) ≡ pos 0
no_tax s t rate bp none_taxable l =
    let (d, discount, ds) = discount_of-bounds s bp l in
    let (n, net, nt) = taxable_net-bounds s d t ds (omega arith) l in
    let zero : n ≡ 0 = omega arith in
    let nothing : (0 * rate + 5000) / 10000 ≡ 0 = omega arith in
    rw (discount, net, zero) (share_of-pos 0 rate (omega arith) ∙ ap pos nothing)

-- For sums of at most 30 million dollars, of which the taxable part is at most the whole, an order from
-- SKUs is charged the total of the quote, whatever discount is asked for and whatever the rate.
pub sku_total-response :
    (items : List ComputedItemSummary) (s t : ℕ) (bp : Option ℤ) (rate : ℕ)
    → t ≤ s
    → s ≤ 3000000000
    → sku_total (record { items = items; subtotal = pos s; taxable = pos t }) bp (pos rate)
      ≡ (response
          (record { items = items; subtotal = pos s; taxable = pos t })
          bp
          (pos rate)).total_cents
unfolding sku_total response
sku_total-response items s t bp rate ts l = elim (Bool-cases (ltb_ℤ (pos 0) (pos t))) [
  | inl e ↦ rw (sku_total, response, e) refl
  | inr e ↦ rw (sku_total, response, e, no_tax s t rate bp (ground arith) l) refl
]
