-- ===== src/Order/Payments.antt =====
-- services/order-service/src/main.rs: the consumer of payment.completed and payment.failed, which tells
-- the other services by order.completed and order.voided, through the outbox or directly. `append` is
-- the joining of texts; the customer of an order and the offline flag are left out of the events.
pub mod Settled
mod Tests
use Prim.Native.String.{◌++◌ as append}
use text.Mathlib.Text.{◌==◌ as str_eq}
use peanut_pos.Base.{
  ℕ, String, Bool, false, ◌&&◌, Option, none, some, List, [], ◌∷◌, ◌++◌, if◌then◌else◌,
}
use peanut_pos.Base.Lists.{any}
use peanut_pos.Base.Table.{first, select, update}
use peanut_pos.Order.Tables.{Order, OrderItem, is_order, of_order}
use peanut_pos.Order.Outbox.{OrderEvent, OutboxRow}

pub record PaymentCompletedEvent : Type 0 where
  pub order_id : ℕ
  pub tenant_id : ℕ

pub record PaymentFailedEvent : Type 0 where
  pub order_id : ℕ
  pub tenant_id : ℕ
  pub reason : String

-- A message for the broker that did not go through the outbox.
pub record Direct : Type 0 where
  pub topic : String
  pub payload : OrderEvent

pub record World : Type 0 where
  pub orders : List Order
  pub items : List OrderItem
  pub outbox : List OutboxRow
  pub direct : List Direct

pub data Site : Type 0 where
  updates loads_order loads_items enqueues sends : Site

-- ORDER_OUTBOX_MODE, the next id of the outbox, and what is refused.
pub record Env : Type 0 where
  pub use_outbox : Bool
  pub outbox_id : ℕ
  pub fails : Site → Bool

-- WHERE id = $1 AND tenant_id = $2 AND status = 'PENDING'.
abbrev pub is_pending : ℕ → ℕ → Order → Bool
is_pending id t r = is_order id t r && str_eq r.status "PENDING"

abbrev pub with_status : String → Order → Order
with_status s r = record r { status = s }

unfoldable pub emit : Env → String → OrderEvent → World → World
emit env topic e w =
    if env.use_outbox
    then (if env.fails enqueues then w else record w {
      outbox =
          w.outbox
          ++ record {
            id = env.outbox_id;
            tenant_id = e.tenant_id;
            topic = topic;
            payload = e;
            published = false;
            retry_count = 0;
          }
            ∷ [];
    })
    else if env.fails sends
    then w
    else record w { direct = w.direct ++ record { topic = topic; payload = e } ∷ [] }

abbrev pub snapshot : Order → List OrderItem → Option String → OrderEvent
snapshot r items reason = record {
  order_id = r.id;
  tenant_id = r.tenant_id;
  items = items;
  total = r.total;
  payment_method = r.payment_method;
  reason = reason;
}

-- The order and its items, read back for the event.
unfoldable pub tell : Env → String → ℕ → ℕ → Option String → World → World
unfolding first select emit
tell env topic id t reason w =
    if env.fails loads_order then w else elim (first (is_order id t) w.orders) [
      | none ↦ w
      | some r ↦
          if env.fails loads_items
          then w
          else emit env topic (snapshot r (select (of_order id) w.items) reason) w
    ]

-- A refused update is logged, and the event is told all the same.
unfoldable pub payment_completed : Env → PaymentCompletedEvent → World → World
unfolding update tell
payment_completed env e w = tell env "order.completed" e.order_id e.tenant_id none (
    if env.fails updates then w else record w {
      orders = update (is_pending e.order_id e.tenant_id) (with_status "COMPLETED") w.orders;
    })

abbrev pub void_reason : String → String
void_reason reason = if str_eq reason "" then "payment_failed" else append "payment_failed: " reason

unfoldable pub payment_failed : Env → PaymentFailedEvent → World → World
unfolding update tell
payment_failed env e w =
    if env.fails updates
    then w
    else if any (is_pending e.order_id e.tenant_id) w.orders
    then tell env "order.voided" e.order_id e.tenant_id (some (void_reason e.reason)) (record w {
      orders = update (is_pending e.order_id e.tenant_id) (with_status "NOT_ACCEPTED") w.orders;
    })
    else w

pub data Message : Type 0 where
  completed : PaymentCompletedEvent → Message
  failed : PaymentFailedEvent → Message

unfoldable pub consume : Env → Message → World → World
unfolding payment_completed payment_failed
consume env (completed e) w = payment_completed env e w
consume env (failed e) w = payment_failed env e w

unfoldable pub consume_all : List (Env × Message) → World → World
unfolding consume
consume_all [] w = w
consume_all ((env, m) ∷ ms) w = consume_all ms (consume env m w)
