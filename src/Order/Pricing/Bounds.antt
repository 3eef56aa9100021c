-- ===== src/Order/Pricing/Bounds.antt =====
-- Bounds of the totals of a cart.
use native.Mathlib.Nat.{mul-le-mul_left, mul-le-mul, div-le_self}
use peanut_pos.Base.{
  List, inl, inr, Bool-cases, ◌&&◌, ltb, ℕ, ◌≡◌, refl, ◌+◌, ◌*◌, ◌/◌, ◌≤◌, ◌-◌, ◌^◌, Option, arith,
}
use peanut_pos.Base.Int.{
  ℤ, pos, negsuc, ◌≤ℤ◌, ◌+ℤ◌, ◌-ℤ◌, ◌*ℤ◌, ◌/ℤ◌, ltb_ℤ, wrap64, clamp64, saturating_add,
  saturating_sub, saturating_mul, max_ℤ,
}
use peanut_pos.Order.Pricing.{response, ComputedItemSummary, ComputeOrderResponse}
use peanut_pos.Order.Discount.{
  clamp_bps, or_else, share_of, discount_of, discount_on_taxable, taxable_net,
}

pub sat_mul : (a b : ℕ) → a * b ≤ 2 ^ 63 - 1 → saturating_mul (pos a) (pos b) ≡ pos (a * b)
unfolding clamp64 ◌*ℤ◌
sat_mul a b h = ground arith

pub share_of-pos :
    (a b : ℕ) → a * b + 5000 ≤ 2 ^ 63 - 1 → share_of (pos a) (pos b) ≡ pos ((a * b + 5000) / 10000)
unfolding clamp64 ◌*ℤ◌ wrap64 ◌+ℤ◌ ◌/ℤ◌
share_of-pos a b h = ground arith

pub clamp_bps-bounds : (v : ℤ) → (b : ℕ) × (clamp_bps v ≡ pos b) × (b ≤ 10000)
unfolding clamp_bps
clamp_bps-bounds (pos n) = elim (Bool-cases (ltb 10000 n)) [
  | inl e ↦ (10000, ground arith, omega arith)
  | inr e ↦ (n, ground arith, ground arith)
]
clamp_bps-bounds (negsuc n) = (0, ground arith, omega arith)

-- At most the whole, at a rate of at most 10000.
share-le : (a b : ℕ) → b ≤ 10000 → (a * b + 5000) / 10000 ≤ a
share-le a b h = let k : a * b ≤ a * 10000 = mul-le-mul_left a h in omega arith

share-fits : (a b : ℕ) → a ≤ 3000000000 → b ≤ 10000 → a * b + 5000 ≤ 2 ^ 63 - 1
share-fits a b l h = let k : a * b ≤ a * 10000 = mul-le-mul_left a h in omega arith

-- A discount is between nothing and the subtotal.
pub discount_of-bounds :
    (s : ℕ) (bp : Option ℤ) → s ≤ 3000000000 → (d : ℕ) × (discount_of (pos s) bp ≡ pos d) × (d ≤ s)
unfolding discount_of
discount_of-bounds s bp l = by_bps (clamp_bps-bounds (or_else bp (pos 0)))
  where
    by_bps :
        ((b : ℕ) × (clamp_bps (or_else bp (pos 0)) ≡ pos b) × (b ≤ 10000))
        → (d : ℕ) × (discount_of (pos s) bp ≡ pos d) × (d ≤ s)
    by_bps (b, e, h) = elim (Bool-cases (ltb_ℤ (pos 0) (pos s) && ltb_ℤ (pos 0) (pos b))) [
      | inl t ↦ (
        (s * b + 5000) / 10000,
        rw (discount_of, e, t) (share_of-pos s b (share-fits s b l h)),
        share-le s b h,
      )
      | inr f ↦ (0, rw (discount_of, e, f) refl, omega arith)
    ]

wrapped_sum : (p h : ℕ) → p + h ≤ 2 ^ 63 - 1 → wrap64 (pos p +ℤ pos h) ≡ pos (p + h)
unfolding wrap64 ◌+ℤ◌
wrapped_sum p h l = ground arith

quotient :
    (s d t : ℕ)
    → d * t ≤ 9000000000000000000
    → s ≤ 3000000000
    → wrap64 (saturating_mul (pos d) (pos t) +ℤ pos s /ℤ pos 2) /ℤ pos s ≡ pos ((d * t + s / 2) / s)
unfolding ◌/ℤ◌
quotient s d t p l = rw (sat_mul d t (omega arith), wrapped_sum (d * t) (s / 2) (omega arith)) refl

net-pos :
    (t x : ℕ)
    → t ≤ 3000000000
    → x ≤ 9000000002000000000
    → max_ℤ (saturating_sub (pos t) (pos x)) (pos 0) ≡ pos (t - x)
unfolding clamp64 ◌-ℤ◌ max_ℤ
net-pos t x lt lx = ground arith

on_taxable-pos :
    (s d t : ℕ)
    → d * t ≤ 9000000000000000000
    → s ≤ 3000000000
    → (x : ℕ) × (discount_on_taxable (pos s) (pos d) (pos t) ≡ pos x) × (x ≤ 9000000002000000000)
unfolding discount_on_taxable
on_taxable-pos s d t p l = elim (Bool-cases (ltb_ℤ (pos 0) (pos s) && ltb_ℤ (pos 0) (pos d))) [
  | inl e ↦ ((d * t + s / 2) / s, rw (discount_on_taxable, e) (quotient s d t p l), small)
  | inr e ↦ (0, rw (discount_on_taxable, e) refl, omega arith)
]
  where
    small : (d * t + s / 2) / s ≤ 9000000002000000000
    small =
        let k : (d * t + s / 2) / s ≤ d * t + s / 2 = div-le_self (d * t + s / 2) s in omega arith

pub taxable_net-bounds :
    (s d t : ℕ)
    → d ≤ s
    → t ≤ s
    → s ≤ 3000000000
    → (n : ℕ) × (taxable_net (pos s) (pos d) (pos t) ≡ pos n) × (n ≤ t)
unfolding taxable_net
taxable_net-bounds s d t ds ts l =
    let product : d * t ≤ 3000000000 * 3000000000 =
      mul-le-mul {n₂ = 3000000000} {m₂ = 3000000000} (omega arith) (omega arith) in
    let (x, e, small) = on_taxable-pos s d t (omega arith) l in
    (t - x, rw (taxable_net, e) (net-pos t x (omega arith) small), omega arith)

-- The totals of sums that are naturals, the taxable one at most the whole, at a rate of at most 100 %.
pub record Fair (r : ComputeOrderResponse) : Type 0 where
  pub discount_lower : pos 0 ≤ℤ r.discount_cents
  pub discount_upper : r.discount_cents ≤ℤ r.subtotal_cents
  pub tax_lower : pos 0 ≤ℤ r.tax_cents
  pub tax_upper : r.tax_cents ≤ℤ r.subtotal_cents
  pub total : r.total_cents ≡ r.subtotal_cents -ℤ r.discount_cents +ℤ r.tax_cents

total-pos :
    (s d x : ℕ)
    → d ≤ s
    → x ≤ s
    → s ≤ 3000000000
    → saturating_add (saturating_sub (pos s) (pos d)) (pos x) ≡ pos s -ℤ pos d +ℤ pos x
unfolding clamp64 ◌-ℤ◌ ◌+ℤ◌
total-pos s d x ds xs l = ground arith

tax-bounds :
    (n t rate : ℕ)
    → n ≤ t
    → t ≤ 3000000000
    → rate ≤ 10000
    → (x : ℕ) × (share_of (pos n) (pos rate) ≡ pos x) × (x ≤ t)
tax-bounds n t rate nt l h =
    let le : (n * rate + 5000) / 10000 ≤ n = share-le n rate h in
    (
      (n * rate + 5000) / 10000,
      share_of-pos n rate (share-fits n rate (omega arith) h),
      omega arith,
    )

parts-Fair :
    (r : ComputeOrderResponse) (s d x : ℕ)
    → r.subtotal_cents ≡ pos s
    → r.discount_cents ≡ pos d
    → r.tax_cents ≡ pos x
    → r.total_cents ≡ saturating_add (saturating_sub r.subtotal_cents r.discount_cents) r.tax_cents
    → d ≤ s
    → x ≤ s
    → s ≤ 3000000000
    → Fair r
parts-Fair r s d x es ed ex et ds xs l = record {
  discount_lower = rw ed (omega arith);
  discount_upper = rw (es, ed) (omega arith);
  tax_lower = rw ex (omega arith);
  tax_upper = rw (es, ex) (omega arith);
  total = rw (et, es, ed, ex) (total-pos s d x ds xs l);
}

pub response-Fair :
    (items : List ComputedItemSummary) (s t : ℕ) (bp : Option ℤ) (rate : ℕ)
    → t ≤ s
    → s ≤ 3000000000
    → rate ≤ 10000
    → Fair (response (record { items = items; subtotal = pos s; taxable = pos t }) bp (pos rate))
unfolding response
response-Fair items s t bp rate ts l h =
    let (d, discount, ds) = discount_of-bounds s bp l in
    let (n, net, nt) = taxable_net-bounds s d t ds ts l in
    let (x, tax, xt) = tax-bounds n t rate nt (omega arith) h in
    let r = response (record { items = items; subtotal = pos s; taxable = pos t }) bp (pos rate) in
    elim (Bool-cases (ltb_ℤ (pos 0) (pos t))) [
      | inl e ↦
          parts-Fair r s d x refl discount (rw (response, e, discount, net) tax) refl ds
            (omega arith) l
      | inr e ↦ parts-Fair r s d 0 refl discount (rw (response, e) refl) refl ds (omega arith) l
    ]
