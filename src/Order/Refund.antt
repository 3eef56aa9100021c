-- ===== src/Order/Refund.antt =====
-- services/order-service/src/order_handlers.rs: `refund_order`. A transaction that is dropped leaves the
-- tables as they were. The reads whose refusal the handler ignores (policy and override) are taken to
-- succeed; times are seconds.
pub mod Lines
pub mod Sold
pub mod Limit
use peanut_pos.Base.{
  ℕ, String, ◌+◌, Bool, true, false, not, ◌&&◌, ◌||◌, Option, none, some, List, [], ◌∷◌, ◌++◌, ◌==◌,
  if◌then◌else◌,
}
use peanut_pos.Base.Int.{ℤ, pos, ◌+ℤ◌, leb_ℤ, i32_min, i32_max}
use peanut_pos.Base.Lists.{any}
use peanut_pos.Base.Table.{first, select, update}
use peanut_pos.Base.Api.{
  ApiError, forbidden_missing_role, bad_request, not_found, internal, Result, ok, err,
}
use peanut_pos.Base.Tx.{◌>>=◌, Tx, ◌>>◌, pure, gets, modify, attempt, require, some_or, transaction}
use peanut_pos.Security.Role.{SecurityContext, admin, manager, role_eq}
use peanut_pos.Order.Tables.{
  Db, Order, OrderItem, ReturnPolicy, ReturnOverride, is_order, of_order, has_id,
}
use peanut_pos.Order.Returnable.{
  ItemsMap, Pending, PendingUpdate, RefundLine, check_lines, items_map,
}
use peanut_pos.Order.Policy.{after_fee, is_refundable, policy_for, to_cents, window_expired}

pub record RefundRequest : Type 0 where
  pub order_id : ℕ
  pub items : List RefundLine

-- The statements whose refusal ends the handler.
pub data Site : Type 0 where
  begin loads_order loads_metadata loads_items writes_quantity writes_return writes_return_item :
      Site
  writes_status commits : Site

pub record Env : Type 0 where
  pub sec : SecurityContext
  pub now : ℕ
  pub override_token : Option ℕ
  pub return_id : ℕ
  pub fails : Site → Bool

abbrev pub is_override : ℕ → ℕ → ℕ → ReturnOverride → Bool
is_override token t o r = (r.id == token) && ((r.tenant_id == t) && (r.order_id == o))

-- An unused override of the order is marked as used; the answer says whether there was one.
unfoldable pub use_override : Env → ℕ → Tx Db Bool
unfolding first update
use_override env order_id db = elim env.override_token [
  | none ↦ ok (false, db)
  | some token ↦ elim (first (is_override token env.sec.tenant_id order_id) db.overrides) [
    | none ↦ ok (false, db)
    | some r ↦ elim r.used_at [
      | some _ ↦ ok (false, db)
      | none ↦ ok (
        true,
        record db {
          overrides =
              update (λ q. q.id == token) (λ q. record q { used_at = some env.now }) db.overrides;
        },
      )
    ]
  ]
]

-- UPDATE order_items SET returned_quantity = returned_quantity + $1 WHERE id = $2.
abbrev pub returned_more : ℤ → OrderItem → OrderItem
returned_more q r = record r { returned_quantity = r.returned_quantity +ℤ q }

unfoldable pub add_returned : PendingUpdate → Tx Db (Unit {0})
unfolding update
add_returned u db =
    if any
      (λ r.
        has_id u.order_item_id r
        && not (
            leb_ℤ i32_min (returned_more u.quantity r).returned_quantity
            && leb_ℤ (returned_more u.quantity r).returned_quantity i32_max))
      db.items
    then err internal
    else ok (
      tt,
      record db { items = update (has_id u.order_item_id) (returned_more u.quantity) db.items },
    )

unfoldable pub write_updates : Env → List PendingUpdate → Tx Db (Unit {0})
unfolding add_returned
write_updates env [] = pure tt
write_updates env (u ∷ us) =
    attempt (env.fails writes_quantity) (add_returned u) >> write_updates env us

unfoldable pub write_return : Env → ℕ → ℤ → Tx Db (Unit {0})
write_return env order_id total db = ok (
  tt,
  record db {
    returns =
        db.returns
        ++ record {
          id = env.return_id;
          order_id = order_id;
          tenant_id = env.sec.tenant_id;
          total = to_cents total;
        }
          ∷ [];
  },
)

unfoldable pub write_return_items : Env → List PendingUpdate → Tx Db (Unit {0})
write_return_items env [] = pure tt
write_return_items env (u ∷ us) =
    attempt (env.fails writes_return_item) (
      modify λ db. record db {
        return_items =
            db.return_items
            ++ record {
              return_id = env.return_id;
              order_item_id = u.order_item_id;
              quantity = u.quantity;
              line_total = u.line_total;
            }
              ∷ [];
      })
    >> write_return_items env us

-- Whether every entry of the map has been returned; its keys are the products of the rows.
unfoldable pub all_returned : List OrderItem → ItemsMap → Bool
all_returned [] m = true
all_returned (r ∷ rs) m =
    elim (m r.product_id) [ none ↦ true | some e ↦ leb_ℤ e.quantity e.returned_quantity ]
    && all_returned rs m

-- UPDATE orders SET status = $3 WHERE id = $1 AND tenant_id = $2 RETURNING ..., fetched as one row.
unfoldable pub set_status : ℕ → ℕ → String → Tx Db Order
unfolding first update
set_status id t status db =
    let orders = update (is_order id t) (λ r. record r { status = status }) db.orders in
    elim (first (is_order id t) orders) [
      | none ↦ err internal
      | some r ↦ ok (r, record db { orders = orders })
    ]

unfoldable pub checked : Result ApiError Pending → Tx Db Pending
checked (ok s) db = ok (s, db)
checked (err e) db = err e

-- The writes, once the lines are checked.
unfoldable pub write_refund : Env → ℕ → ReturnPolicy → List OrderItem → Pending → Tx Db Order
unfolding write_updates write_return write_return_items set_status all_returned
write_refund env order_id policy rows s = do
  write_updates env s.updates
  attempt (env.fails writes_return) (write_return env order_id (after_fee policy s.refund_total))
  write_return_items env s.updates
  attempt (env.fails writes_status) (
      set_status order_id env.sec.tenant_id
        (if all_returned rows s.lines then "REFUNDED" else "PARTIAL_REFUNDED"))

abbrev pub no_pending : ItemsMap → Pending
no_pending m = record { lines = m; updates = []; refund_total = pos 0 }

unfoldable pub refund_items : Env → RefundRequest → ReturnPolicy → Tx Db Order
unfolding select items_map check_lines checked write_refund
refund_items env req policy = do
  rows ← attempt (env.fails loads_items) (gets λ db. select (of_order req.order_id) db.items)
  require (elim rows [ [] ↦ false | _ ∷ _ ↦ true ]) (bad_request "no_items")
  s ← checked (check_lines req.items (no_pending (items_map rows λ p. none)))
  write_refund env req.order_id policy rows s

unfoldable pub refund_tx : Env → RefundRequest → Tx Db Order
unfolding first policy_for use_override window_expired refund_items
refund_tx env req = do
  attempt (env.fails begin) (pure tt)
  found ←
      attempt (env.fails loads_order)
        (gets λ db. first (is_order req.order_id env.sec.tenant_id) db.orders)
  order ← some_or (not_found "order_not_found") found
  require (is_refundable order.status) (bad_request "invalid_status")
  attempt (env.fails loads_metadata) (pure tt)
  policy ← gets λ db. policy_for env.sec.tenant_id order.store_id db.policies
  override_valid ← use_override env req.order_id
  require
      ((override_valid && policy.manager_override_allowed)
        || not (window_expired env.now policy order))
      (bad_request "return_window_expired")
  order' ← refund_items env req policy
  attempt (env.fails commits) (pure order')

unfoldable pub refund_checked : Env → RefundRequest → Tx Db Order
unfolding role_eq refund_tx
refund_checked env req =
    require (any (λ r. role_eq r admin || role_eq r manager) env.sec.roles)
      (forbidden_missing_role "admin_or_manager")
    >> require (elim req.items [ [] ↦ false | _ ∷ _ ↦ true ]) (bad_request "missing_items")
    >> refund_tx env req

unfoldable pub refund_order : Env → RefundRequest → Db → Result ApiError Order × Db
unfolding refund_checked
refund_order env req = transaction (refund_checked env req)
