-- ===== src/Order/Discount.antt =====
-- services/order-service/src/order_handlers.rs: the discount of a cart, and what of it falls on the taxable
-- lines, as `compute_with_db_inner` works them out.
use peanut_pos.Base.{◌&&◌, Option, none, some, if◌then◌else◌}
use peanut_pos.Base.Int.{ℤ, pos, ◌+ℤ◌, ◌/ℤ◌, ltb_ℤ, wrap64, saturating_sub, saturating_mul, max_ℤ}

unfoldable pub clamp_bps : ℤ → ℤ
clamp_bps v = if ltb_ℤ v (pos 0) then pos 0 else if ltb_ℤ (pos 10000) v then pos 10000 else v

abbrev pub or_else : {A : Type 0} → Option A → A → A
or_else none d = d
or_else (some a) d = a

-- v * bps / 10000, rounded half up.
abbrev pub share_of : ℤ → ℤ → ℤ
share_of v bps = wrap64 (saturating_mul v bps +ℤ pos 5000) /ℤ pos 10000

unfoldable pub discount_of : ℤ → Option ℤ → ℤ
discount_of subtotal bp =
    let bps = clamp_bps (or_else bp (pos 0)) in
    if ltb_ℤ (pos 0) subtotal && ltb_ℤ (pos 0) bps then share_of subtotal bps else pos 0

-- The part of the discount that falls on the taxable lines.
unfoldable pub discount_on_taxable : ℤ → ℤ → ℤ → ℤ
discount_on_taxable subtotal discount taxable =
    if ltb_ℤ (pos 0) subtotal && ltb_ℤ (pos 0) discount
    then wrap64 (saturating_mul discount taxable +ℤ subtotal /ℤ pos 2) /ℤ subtotal
    else pos 0

unfoldable pub taxable_net : ℤ → ℤ → ℤ → ℤ
taxable_net subtotal discount taxable =
    max_ℤ (saturating_sub taxable (discount_on_taxable subtotal discount taxable)) (pos 0)
