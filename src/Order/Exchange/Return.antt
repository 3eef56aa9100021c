-- ===== src/Order/Exchange/Return.antt =====
-- services/order-service/src/order_handlers.rs: the transaction of `exchange_order` that writes the
-- returned lines. It stays open while the new order is committed, so `try_return` is what its
-- statements answer and `apply_return` what they leave at the commit.
use peanut_pos.Base.{
  ℕ, String, Bool, ◌&&◌, ◌||◌, Option, none, some, List, [], ◌∷◌, ◌++◌, map, if◌then◌else◌,
}
use peanut_pos.Base.Int.{ℤ, pos, ◌-ℤ◌, ltb_ℤ, leb_ℤ, wrap32, saturating_add, saturating_mul}
use peanut_pos.Base.Lists.{any}
use peanut_pos.Base.Table.{select, update}
use peanut_pos.Base.Api.{ApiError, bad_request, internal, Result, ok, err}
use peanut_pos.Base.Tx.{Tx, ◌>>◌, pure, attempt}
use peanut_pos.Order.Tables.{Db, OrderItem, is_order, of_order, has_id}
use peanut_pos.Order.Refund.{add_returned, returned_more}
use peanut_pos.Order.Returnable.{ItemsMap, items_map, PendingUpdate}
use peanut_pos.Order.Exchange.Request.{
  ExchangeReturnItem, ExchangeRequest, Env, Site, inserts_return, writes_quantity, inserts_item,
  counts, writes_total, writes_status,
}

-- What the transaction is to write.
pub record Returned : Type 0 where
  pub updates : List PendingUpdate
  pub refund_total : ℤ
  pub status : String

-- Each line is tested against the map as it was loaded.
unfoldable pub check_returns : ItemsMap → List ExchangeReturnItem → Result ApiError (Unit {0})
check_returns m [] = ok tt
check_returns m (l ∷ ls) =
    if leb_ℤ l.qty (pos 0) then err (bad_request "invalid_quantity") else elim (m l.product_id) [
      | none ↦ err (bad_request "product_not_in_order")
      | some row ↦
          if ltb_ℤ (wrap32 (row.quantity -ℤ row.returned_quantity)) l.qty
          then err (bad_request "refundable_qty_exceeded")
          else check_returns m ls
    ]

-- A line without a row does not pass the test.
unfoldable pub returned_lines : ItemsMap → List ExchangeReturnItem → List PendingUpdate
returned_lines m [] = []
returned_lines m (l ∷ ls) = elim (m l.product_id) [
  | none ↦ returned_lines m ls
  | some row ↦
      record {
        order_item_id = row.order_item_id;
        product_id = l.product_id;
        quantity = l.qty;
        line_total = saturating_mul row.unit_price l.qty;
      }
      ∷ returned_lines m ls
]

unfoldable pub refunded : List PendingUpdate → ℤ → ℤ
refunded [] total = total
refunded (u ∷ us) total = refunded us (saturating_add total u.line_total)

unfoldable pub write_lines : (Site → Bool) → List PendingUpdate → Tx Db (Unit {0})
unfolding add_returned
write_lines fails [] = pure tt
write_lines fails (u ∷ us) =
    attempt (fails writes_quantity) (add_returned u)
    >> attempt (fails inserts_item) (pure tt)
    >> write_lines fails us

abbrev pub open_lines : ℕ → List OrderItem → Bool
open_lines original items =
    any (λ r. of_order original r && ltb_ℤ r.returned_quantity r.quantity) items

-- The transaction's statements, as far as they answer; `apply_return` is what they leave.
unfoldable pub try_return : (Site → Bool) → ℕ → List PendingUpdate → Db → Result ApiError Returned
unfolding write_lines refunded
try_return fails original us db =
    if fails inserts_return then err internal else elim (write_lines fails us db) [
      | err e ↦ err e
      | ok (_, db') ↦
          if fails counts || fails writes_total || fails writes_status
          then err internal
          else ok (record {
            updates = us;
            refund_total = refunded us (pos 0);
            status = if open_lines original db'.items then "PARTIAL_REFUNDED" else "REFUNDED";
          })
    ]

unfoldable pub returning :
    (Site → Bool) → ℕ → ExchangeRequest → Db → Result ApiError (Option Returned)
unfolding select items_map check_returns returned_lines try_return
returning fails original req db = elim req.return_items [
  | [] ↦ ok none
  | _ ∷ _ ↦
      let m = items_map (select (of_order original) db.items) (λ p. none) in
      elim (check_returns m req.return_items) [
        | err e ↦ err e
        | ok _ ↦ elim (try_return fails original (returned_lines m req.return_items) db) [
          | err e ↦ err e
          | ok r ↦ ok (some r)
        ]
      ]
]

unfoldable pub add_all : List PendingUpdate → List OrderItem → List OrderItem
unfolding update
add_all [] items = items
add_all (u ∷ us) items =
    add_all us (update (has_id u.order_item_id) (returned_more u.quantity) items)

unfoldable pub apply_return : Env → ℕ → Option Returned → Db → Db
unfolding update add_all
apply_return env original none db = db
apply_return env original (some r) db = record db {
  orders =
      update (is_order original env.create.sec.tenant_id) (λ o. record o { status = r.status })
        db.orders;
  items = add_all r.updates db.items;
  returns =
      db.returns
      ++ record {
        id = env.return_id;
        order_id = original;
        tenant_id = env.create.sec.tenant_id;
        total = r.refund_total;
      }
        ∷ [];
  return_items =
      db.return_items
      ++ map
          (λ u. record {
            return_id = env.return_id;
            order_item_id = u.order_item_id;
            quantity = u.quantity;
            line_total = u.line_total;
          })
          r.updates;
}
