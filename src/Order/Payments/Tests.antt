-- ===== src/Order/Payments/Tests.antt =====
-- Payment events for the orders of a shop, and the theorems at them.
use text.Mathlib.TextEquality.{eq_iff}
use peanut_pos.Base.{String, ◌≡◌, refl, false, none, some, [], ◌∷◌, arith}
use peanut_pos.Base.Int.{pos}
use peanut_pos.Base.Table
use peanut_pos.Base.Table.{first}
use peanut_pos.Order.Tables.{Order, is_order}
use peanut_pos.Order.Payments.{
  Env, World, PaymentCompletedEvent, PaymentFailedEvent, completed, failed, payment_failed,
  consume_all,
}
use peanut_pos.Order.Payments.Settled.{consume_all-settled, payment_failed_once}

abbrev order_with : String → Order
order_with status = record {
  id = 1;
  tenant_id = 7;
  total = pos 900;
  status = status;
  store_id = none;
  created_at = 1000;
  payment_method = "card";
  idempotency_key = none;
}

abbrev world_with : String → World
world_with status = record { orders = order_with status ∷ []; items = []; outbox = []; direct = [] }

abbrev desk : Env
desk = record { use_outbox = false; outbox_id = 1; fails = λ s. false }

abbrev paid : PaymentCompletedEvent
paid = record { order_id = 1; tenant_id = 7 }

abbrev declined : PaymentFailedEvent
declined = record { order_id = 1; tenant_id = 7; reason = "" }

declined_voids :
    (payment_failed desk declined (world_with "PENDING")).orders ≡ order_with "NOT_ACCEPTED" ∷ []
unfolding payment_failed
declined_voids = refl

consume_all-settled_example :
    first
      (is_order 1 7)
      (consume_all
        ((desk, failed declined) ∷ (desk, completed paid) ∷ [])
        (world_with "VOIDED")).orders
    ≡ some (order_with "VOIDED")
unfolding Table.first
consume_all-settled_example =
    consume_all-settled ((desk, failed declined) ∷ (desk, completed paid) ∷ [])
      (world_with "VOIDED") 1 7 (order_with "VOIDED") refl
      (λ e. let q = (eq_iff "VOIDED" "PENDING").1 e in absurd (ground arith))

payment_failed_once_example :
    payment_failed desk declined (payment_failed desk declined (world_with "PENDING"))
    ≡ payment_failed desk declined (world_with "PENDING")
payment_failed_once_example = payment_failed_once desk desk declined (world_with "PENDING") refl
