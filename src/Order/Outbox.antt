-- ===== src/Order/Outbox.antt =====
-- services/order-service/src/main.rs: the outbox worker, over the table of migration 2011. Rows stand in
-- the order of their creation; `sent` lists the rows that the broker took. The metrics are left out.
pub mod Drained
pub mod Blocked
mod Tests
use peanut_pos.Base.{
  ℕ, zero, suc, String, ◌+◌, Bool, true, false, not, Option, List, [], ◌∷◌, ◌++◌, ◌==◌,
  if◌then◌else◌,
}
use peanut_pos.Base.Int.{ℤ}
use peanut_pos.Base.Lists.{take}
use peanut_pos.Base.Table.{select, update}
use peanut_pos.Order.Tables.{OrderItem}

-- The JSON of order.completed and of order.voided, which alone has a reason.
pub record OrderEvent : Type 0 where
  pub order_id : ℕ
  pub tenant_id : ℕ
  pub items : List OrderItem
  pub total : ℤ
  pub payment_method : String
  pub reason : Option String

pub record OutboxRow : Type 0 where
  pub id : ℕ
  pub tenant_id : ℕ
  pub topic : String
  pub payload : OrderEvent
  pub published : Bool
  pub retry_count : ℕ

pub record Outbox : Type 0 where
  pub rows : List OutboxRow
  pub sent : List OutboxRow

-- What the database and the broker answer at a tick; the last three by the row's id.
pub record Weather : Type 0 where
  pub fetch_fails : Bool
  pub takes : ℕ → Bool
  pub mark_fails : ℕ → Bool
  pub count_fails : ℕ → Bool

abbrev pub batch_size : ℕ
batch_size = 50

-- WHERE published_at IS NULL ORDER BY created_at.
unfoldable pub unpublished : List OutboxRow → List OutboxRow
unfolding select
unpublished rows = select (λ r. not r.published) rows

abbrev pub mark : OutboxRow → OutboxRow
mark r = record r { published = true }

abbrev pub retry : OutboxRow → OutboxRow
retry r = record r { retry_count = r.retry_count + 1 }

abbrev pub set_where : Bool → ℕ → (OutboxRow → OutboxRow) → List OutboxRow → List OutboxRow
set_where true id f rows = rows
set_where false id f rows = update (λ r. r.id == id) f rows

unfoldable pub publish : Weather → OutboxRow → Outbox → Outbox
unfolding update
publish env row o =
    if env.takes row.id
    then record {
      rows = set_where (env.mark_fails row.id) row.id mark o.rows;
      sent = o.sent ++ row ∷ [];
    }
    else record o { rows = set_where (env.count_fails row.id) row.id retry o.rows }

unfoldable pub publish_all : Weather → List OutboxRow → Outbox → Outbox
unfolding publish
publish_all env [] o = o
publish_all env (row ∷ rows) o = publish_all env rows (publish env row o)

unfoldable pub tick : Weather → Outbox → Outbox
unfolding take unpublished publish_all
tick env o = if env.fetch_fails then o else publish_all env (take batch_size (unpublished o.rows)) o

unfoldable pub ticks : ℕ → (ℕ → Weather) → Outbox → Outbox
unfolding tick
ticks zero env o = o
ticks (suc n) env o = ticks n (λ k. env (suc k)) (tick (env 0) o)
