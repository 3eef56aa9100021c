-- ===== src/Order/Refund/Limit.antt =====
-- A refund never returns more than was sold.
use peanut_pos.Base.{
  ℕ, String, ◌≡◌, refl, sym, ap, subst, ◌∙◌, Bool, true, false, none, List, [], ◌∷◌, ◌++◌, map,
  ◌==◌, arith, if◌then◌else◌,
}
use peanut_pos.Base.Int.{ℤ, pos, ◌+ℤ◌, int_laws, +ℤ_assoc}
use peanut_pos.Base.Lists.{All}
use peanut_pos.Base.Table.{select, update}
use peanut_pos.Base.Api.{Result, ok, err, ApiError}
use peanut_pos.Base.Tx.{attempt}
use peanut_pos.Base.Tx.Keeps.{Keeps, bind-ok, keeps_rules, transaction_keeps}
use peanut_pos.Order.Tables.{Db, Order, OrderItem, ReturnPolicy, of_order, has_id}
use peanut_pos.Order.Refund.{
  no_pending, returned_more, add_returned, write_updates, write_return, write_return_items,
  write_refund, refund_items, refund_tx, refund_checked, refund_order, use_override, set_status,
  writes_return, writes_status, Env, RefundRequest,
}
use peanut_pos.Order.Policy.{after_fee}
use peanut_pos.Order.Returnable.{Pending, PendingUpdate, items_map, check_lines}
use peanut_pos.Order.Refund.Lines.{InBounds, sum_for}
use peanut_pos.Order.Refund.Sold.{Keyed, WellFormed, grown, checked-InBounds, grown-Keyed}

at_returned :
    (r : OrderItem) {a b : ℤ}
    → a ≡ b
    → record r { returned_quantity = a } ≡ record r { returned_quantity = b }
at_returned r e = ap (λ x. record r { returned_quantity = x }) e

skip : (a b : ℤ) → a +ℤ b ≡ a +ℤ (pos 0 +ℤ b)
skip a b = omega int_laws

add_zero : (a : ℤ) → a +ℤ pos 0 ≡ a
add_zero a = omega int_laws

branch :
    (us : List PendingUpdate) (b : Bool) (q : ℤ) (r : OrderItem)
    → grown us (if b then returned_more q r else r) ≡ record r {
      returned_quantity = r.returned_quantity +ℤ ((if b then q else pos 0) +ℤ sum_for r.id us);
    }
branch us true q r = at_returned r (+ℤ_assoc r.returned_quantity q (sum_for r.id us))
branch us false q r = at_returned r (skip r.returned_quantity (sum_for r.id us))

one_step :
    (u : PendingUpdate) (us : List PendingUpdate) (r : OrderItem)
    → grown us (if has_id u.order_item_id r then returned_more u.quantity r else r)
      ≡ grown (u ∷ us) r
unfolding sum_for
one_step u us r =
    let test : has_id u.order_item_id r ≡ (u.order_item_id == r.id) = ground arith in
    branch us (has_id u.order_item_id r) u.quantity r
    ∙ ap
        (λ b. record r {
          returned_quantity =
              r.returned_quantity +ℤ ((if b then u.quantity else pos 0) +ℤ sum_for r.id us);
        })
        test

steps :
    (u : PendingUpdate) (us : List PendingUpdate) (rows : List OrderItem)
    → map (grown us) (update (has_id u.order_item_id) (returned_more u.quantity) rows)
      ≡ map (grown (u ∷ us)) rows
unfolding update
steps u us [] = refl
steps u us (r ∷ rows) =
    ap (λ x. x ∷ map (grown us) (update (has_id u.order_item_id) (returned_more u.quantity) rows))
      (one_step u us r)
    ∙ ap (λ xs. grown (u ∷ us) r ∷ xs) (steps u us rows)

no_steps : (rows : List OrderItem) → map (grown []) rows ≡ rows
unfolding sum_for
no_steps [] = refl
no_steps (r ∷ rows) =
    ap (λ x. x ∷ map (grown []) rows) (at_returned r (add_zero r.returned_quantity))
    ∙ ap (λ xs. r ∷ xs) (no_steps rows)

write_updates-items :
    (env : Env) (us : List PendingUpdate) (db db' : Db)
    → write_updates env us db ≡ ok (tt, db')
    → db'.items ≡ map (grown us) db.items
unfolding write_updates add_returned
write_updates-items env [] db db' h =
    let e : db ≡ db' = ground arith in ap (λ x. x.items) (sym e) ∙ sym (no_steps db.items)
write_updates-items env (u ∷ us) db db' h =
    write_updates-items env us
      (record db { items = update (has_id u.order_item_id) (returned_more u.quantity) db.items })
      db' (ground arith)
    ∙ steps u us db.items

write_return_items-items :
    (env : Env) (us : List PendingUpdate) (db db' : Db)
    → write_return_items env us db ≡ ok (tt, db')
    → db'.items ≡ db.items
unfolding write_return_items
write_return_items-items env [] db db' h = ground arith
write_return_items-items env (u ∷ us) db db' h =
    write_return_items-items env us
      (record db {
        return_items =
            db.return_items
            ++ record {
              return_id = env.return_id;
              order_item_id = u.order_item_id;
              quantity = u.quantity;
              line_total = u.line_total;
            }
              ∷ [];
      })
      db' (ground arith)

refund_items-steps :
    (env : Env) (req : RefundRequest) (policy : ReturnPolicy) (db db' : Db) (o : Order)
    → refund_items env req policy db ≡ ok (o, db')
    → (s : Pending) × (check_lines req.items
          (no_pending (items_map (select (of_order req.order_id) db.items) λ p. none))
        ≡ ok s)
      × (write_refund env req.order_id policy (select (of_order req.order_id) db.items) s db
          ≡ ok (o, db'))
unfolding refund_items
refund_items-steps env req policy db db' o h =
    by_check
      (check_lines req.items
        (no_pending (items_map (select (of_order req.order_id) db.items) λ p. none)))
      refl
  where
    by_check :
        (c : Result ApiError Pending)
        → check_lines req.items
            (no_pending (items_map (select (of_order req.order_id) db.items) λ p. none))
          ≡ c
        → (s : Pending) × (check_lines req.items
              (no_pending (items_map (select (of_order req.order_id) db.items) λ p. none))
            ≡ ok s)
          × (write_refund env req.order_id policy (select (of_order req.order_id) db.items) s db
              ≡ ok (o, db'))
    by_check (err x) e = ground arith
    by_check (ok s) e = (s, e, ground arith)

write_return-items :
    (env : Env) (id : ℕ) (total : ℤ) (db db' : Db)
    → attempt (env.fails writes_return) (write_return env id total) db ≡ ok (tt, db')
    → db'.items ≡ db.items
unfolding write_return
write_return-items env id total db db' h = ground arith

set_status-items :
    (failed : Bool) (id t : ℕ) (status : String) (db db' : Db) (o : Order)
    → attempt failed (set_status id t status) db ≡ ok (o, db')
    → db'.items ≡ db.items
unfolding set_status
set_status-items failed id t status db db' o h = ground arith

write_refund-items :
    (env : Env) (id : ℕ) (policy : ReturnPolicy) (rows : List OrderItem) (s : Pending) (db db' : Db)
    (o : Order)
    → write_refund env id policy rows s db ≡ ok (o, db')
    → db'.items ≡ map (grown s.updates) db.items
unfolding write_refund
write_refund-items env id policy rows s db db' o h =
    let (_, db1, updated, h1) = bind-ok (write_updates env s.updates) _ db db' o h in
    let (_, db2, returned, h2) =
      bind-ok
        (attempt (env.fails writes_return) (write_return env id (after_fee policy s.refund_total)))
        _ db1 db' o h1 in
    let (_, db3, listed, h3) = bind-ok (write_return_items env s.updates) _ db2 db' o h2 in
    set_status-items (env.fails writes_status) id env.sec.tenant_id _ db3 db' o h3
    ∙ write_return_items-items env s.updates db2 db3 listed
    ∙ write_return-items env id (after_fee policy s.refund_total) db1 db2 returned
    ∙ write_updates-items env s.updates db db1 updated

use_override-items :
    (env : Env) (id : ℕ) (db db' : Db) (b : Bool)
    → use_override env id db ≡ ok (b, db')
    → db'.items ≡ db.items
unfolding use_override
use_override-items env id db db' b h = ground arith

refund_items-Keeps :
    (env : Env) (req : RefundRequest) (policy : ReturnPolicy)
    → Keeps WellFormed (refund_items env req policy)
refund_items-Keeps env req policy = record {
  at = λ db db' o h p.
      let (s, checked, written) = refund_items-steps env req policy db db' o h in
      let e =
        write_refund-items env req.order_id policy (select (of_order req.order_id) db.items) s db
          db' o written in
      (
        subst (All InBounds) (sym e)
            (checked-InBounds req.order_id req.items db.items s p.0 p.1 checked),
        subst Keyed (sym e) (grown-Keyed s.updates db.items p.1),
      );
}

use_override-Keeps : (env : Env) (id : ℕ) → Keeps WellFormed (use_override env id)
use_override-Keeps env id = record {
  at = λ db db' b h p.
      let e = use_override-items env id db db' b h in
      (subst (All InBounds) (sym e) p.0, subst Keyed (sym e) p.1);
}

-- In a database whose line items have distinct ids and have each returned at least nothing and at most
-- what was sold, whatever refund is asked for, by whom, and whichever statement is refused, the
-- database afterwards is of that kind too: no line is ever returned beyond what was sold.
pub refund_order-WellFormed :
    (env : Env) (req : RefundRequest) (db : Db)
    → WellFormed db
    → WellFormed (refund_order env req db).1
unfolding refund_order refund_checked refund_tx
refund_order-WellFormed env req db p =
    transaction_keeps {P = WellFormed} (refund_checked env req) db
      (search (keeps_rules, refund_items-Keeps, use_override-Keeps) depth 24) p
