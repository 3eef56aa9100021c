-- ===== src/Order/Exchange/Tests.antt =====
-- Runs of an exchange, and the theorem at one.
use peanut_pos.Base.{◌≡◌, refl, false, none, some, [], ◌∷◌}
use peanut_pos.Base.Int.{ℤ, pos, negsuc}
use peanut_pos.Base.Int
use peanut_pos.Base.Table
use peanut_pos.Base.Api.{ok, err, ApiError}
use peanut_pos.Order.Pricing
use peanut_pos.Order.Discount
use peanut_pos.Order.Tests.{text, number, shop, catalogue}
use peanut_pos.Order.Create.Tests.{register}
use peanut_pos.Order.Exchange.Request.{Env, ExchangeRequest, ExchangeResponse, Shop}
use peanut_pos.Order.Exchange.{exchange_order}
use peanut_pos.Order.Exchange.Alone.{returns_alone-Refused}

abbrev counter : Env
counter = record { pricing = catalogue; create = register; return_id = 60; fails = λ s. false }

abbrev open_shop : Shop
open_shop = record { db = shop; payments = []; held = []; links = [] }

abbrev one_back : ExchangeRequest
one_back = record {
  return_items = record { product_id = 3; qty = pos 1 } ∷ [];
  new_items = [];
  discount_percent_bp = none;
  payment = none;
  idempotency_key = none;
}

returns_alone-Refused_example :
    (e : ApiError) × (exchange_order text text text number counter 1 one_back open_shop
      ≡ (err e, open_shop))
returns_alone-Refused_example =
    returns_alone-Refused text text text number counter 1 one_back open_shop refl

-- Both teas of the order are brought back twice over, and one is taken.
abbrev twice_back : ExchangeRequest
twice_back = record {
  return_items =
      record { product_id = 3; qty = pos 2 } ∷ record { product_id = 3; qty = pos 2 } ∷ [];
  new_items = record { sku = "TEA"; quantity = pos 1 } ∷ [];
  discount_percent_bp = none;
  payment = some (record { method = "cash"; amount_cents = pos 500 });
  idempotency_key = none;
}

abbrev settled : ExchangeResponse
settled = record {
  original_order_id = 1;
  exchange_order_id = 20;
  refund = some 60;
  refunded_cents = pos 1800;
  new_order_total_cents = pos 487;
  net_delta_cents = negsuc 1312;
  net_direction = "refund";
}

returned_twice :
    (exchange_order text text text number counter 1 twice_back open_shop).0 ≡ ok settled
unfolding exchange_order Pricing.last_where Pricing.add_line Discount.discount_of Int.clamp64
    Int.wrap32 Int.◌*ℤ◌ Int.◌+ℤ◌ Discount.clamp_bps Int.◌/ℤ◌ Int.wrap64 Discount.taxable_net
    Int.max_ℤ Int.◌-ℤ◌ Discount.discount_on_taxable Pricing.newest Table.select
returned_twice = refl
