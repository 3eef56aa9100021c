-- ===== src/Order/Returnable.antt =====
-- services/order-service/src/order_handlers.rs: the lines that `refund_order` is asked for, checked against
-- what remains of the lines of the order.
use peanut_pos.Base.{ℕ, Option, none, some, List, [], ◌∷◌, ◌++◌, ◌==◌, if◌then◌else◌}
use peanut_pos.Base.Int.{ℤ, pos, ◌+ℤ◌, ◌-ℤ◌, ◌*ℤ◌, ltb_ℤ, leb_ℤ, wrap32}
use peanut_pos.Base.Api.{ApiError, bad_request, Result, ok, err}
use peanut_pos.Order.Tables.{OrderItem}

pub record RefundLine : Type 0 where
  pub product_id : ℕ
  pub quantity : ℤ

pub record DbItem : Type 0 where
  pub order_item_id : ℕ
  pub quantity : ℤ
  pub returned_quantity : ℤ
  pub unit_price : ℤ

pub record PendingUpdate : Type 0 where
  pub order_item_id : ℕ
  pub product_id : ℕ
  pub quantity : ℤ
  pub line_total : ℤ

-- The HashMap from products to the lines of the order.
abbrev pub ItemsMap : Type 0
ItemsMap = ℕ → Option DbItem

abbrev pub insert : ℕ → DbItem → ItemsMap → ItemsMap
insert p e m q = if q == p then some e else m q

abbrev pub entry_of : OrderItem → DbItem
entry_of r = record {
  order_item_id = r.id;
  quantity = r.quantity;
  returned_quantity = r.returned_quantity;
  unit_price = r.unit_price;
}

-- The rows are inserted in order, so that a later line of a product replaces an earlier one.
unfoldable pub items_map : List OrderItem → ItemsMap → ItemsMap
items_map [] m = m
items_map (r ∷ rs) m = items_map rs (insert r.product_id (entry_of r) m)

-- What the loop over the requested lines accumulates: the map, the updates and the refund.
pub record Pending : Type 0 where
  pub lines : ItemsMap
  pub updates : List PendingUpdate
  pub refund_total : ℤ

unfoldable pub take_line : RefundLine → DbItem → Pending → Pending
take_line l e s =
    let line_total = e.unit_price *ℤ l.quantity in
    record {
      lines =
          insert l.product_id
            (record e { returned_quantity = wrap32 (e.returned_quantity +ℤ l.quantity) }) s.lines;
      updates =
          s.updates
          ++ record {
            order_item_id = e.order_item_id;
            product_id = l.product_id;
            quantity = l.quantity;
            line_total = line_total;
          }
            ∷ [];
      refund_total = s.refund_total +ℤ line_total;
    }

unfoldable pub check_entry : RefundLine → DbItem → Pending → Result ApiError Pending
unfolding take_line
check_entry l e s =
    let available = wrap32 (e.quantity -ℤ e.returned_quantity) in
    if leb_ℤ available (pos 0)
    then err (bad_request "already_returned")
    else if ltb_ℤ available l.quantity
    then err (bad_request "exceeds_available")
    else ok (take_line l e s)

unfoldable pub check_line : RefundLine → Pending → Result ApiError Pending
unfolding check_entry
check_line l s =
    if leb_ℤ l.quantity (pos 0)
    then err (bad_request "invalid_quantity")
    else elim (s.lines l.product_id) [
      | none ↦ err (bad_request "product_not_in_order")
      | some e ↦ check_entry l e s
    ]

unfoldable pub check_lines : List RefundLine → Pending → Result ApiError Pending
unfolding check_line
check_lines [] s = ok s
check_lines (l ∷ ls) s = elim (check_line l s) [ err e ↦ err e | ok s' ↦ check_lines ls s' ]
