-- ===== src/Inventory/Events.antt =====
-- services/inventory-service/src/main.rs: the handlers of events. A statement that fails aborts the transaction: PostgreSQL refuses the later ones and the
-- commit rolls back, so a failure leaves the tables. The alerts of low stock are the handler's result;
-- the validation of the dual write only logs and is left out.
pub mod Completed
use peanut_pos.Base.{
  ℕ, Bool, not, ◌&&◌, Option, none, some, List, [], ◌∷◌, ◌++◌, ◌==◌, if◌then◌else◌,
}
use peanut_pos.Base.Int.{ℤ, pos, ◌+ℤ◌, ◌-ℤ◌, ltb_ℤ, wrap32}
use peanut_pos.Base.Lists.{any}
use peanut_pos.Base.Table.{first, select, update, delete, insert_absent}
use peanut_pos.Base.Api.{ApiError, internal, Result, ok, err}
use peanut_pos.Base.Tx.{Tx, ◌>>=◌, ◌>>◌, pure, gets, modify, attempt, transaction}
use peanut_pos.Inventory.Store.{
  Db, Stock, Item, Reservation, stock_of, item_at, of_order, in_range, default_threshold,
  crossed_below_threshold,
}
use peanut_pos.Inventory.Release.{seed_stock, restock_all, delete_order}
use peanut_pos.Inventory.Release

pub record OrderItem : Type 0 where
  pub product_id : ℕ
  pub quantity : ℤ

pub record OrderCompletedEvent : Type 0 where
  pub order_id : ℕ
  pub tenant_id : ℕ
  pub items : List OrderItem

pub record OrderVoidedEvent : Type 0 where
  pub order_id : ℕ
  pub tenant_id : ℕ

pub record ProductCreatedEvent : Type 0 where
  pub product_id : ℕ
  pub tenant_id : ℕ
  pub initial_quantity : Option ℤ
  pub threshold : Option ℤ

pub record Alert : Type 0 where
  pub product_id : ℕ
  pub quantity : ℤ
  pub threshold : ℤ

pub data Site : Type 0 where
  begin commits seeds : Site
  takes clears : ℕ → Site
  voids : Release.Site → Site

abbrev pub taken_by : ℤ → Stock → Stock
taken_by d r = record r { quantity = r.quantity -ℤ d }

-- UPDATE inventory SET quantity = quantity - $1 ... RETURNING quantity, threshold.
unfoldable pub take_stock : ℕ → ℕ → ℤ → Tx Db (Option Stock)
unfolding first update
take_stock t p d db =
    if any (λ r. stock_of t p r && not (in_range (taken_by d r).quantity)) db.inventory
    then err internal
    else let inventory = update (stock_of t p) (taken_by d) db.inventory in
      ok (first (stock_of t p) inventory, record db { inventory = inventory })

-- The loop: update the row; where there is none, insert one at 0 and update again.
unfoldable pub take_or_seed : Bool → ℕ → ℕ → ℤ → Tx Db (Option Stock)
unfolding take_stock seed_stock
take_or_seed failed t p d = do
  row ← attempt failed (take_stock t p d)
  elim row [
    | some r ↦ pure (some r)
    | none ↦ do seed_stock t p (pos 0) default_threshold; take_stock t p d
  ]

abbrev pub of_line : ℕ → ℕ → ℕ → Reservation → Bool
of_line o t p r = of_order o t r && (r.product_id == p)

abbrev pub item_of : ℕ → ℕ → Item → Bool
item_of t p r = (r.tenant_id == t) && (r.product_id == p)

-- SUM(quantity) over a product's locations.
unfoldable pub sum_items : ℕ → ℕ → List Item → ℤ
sum_items t p [] = pos 0
sum_items t p (r ∷ rs) = (if item_of t p r then r.quantity else pos 0) +ℤ sum_items t p rs

-- MIN(threshold), where there is a row.
unfoldable pub min_threshold : ℕ → ℕ → List Item → Option ℤ
min_threshold t p [] = none
min_threshold t p (r ∷ rs) =
    if item_of t p r
    then elim (min_threshold t p rs) [
      | none ↦ some r.threshold
      | some m ↦ some (if ltb_ℤ m r.threshold then m else r.threshold)
    ]
    else min_threshold t p rs

-- The pair of quantity (cast to an i32) and threshold.
unfoldable pub aggregate : ℕ → ℕ → List Item → Option (ℤ × ℤ)
unfolding sum_items min_threshold
aggregate t p rows = elim (min_threshold t p rows) [
  | none ↦ none
  | some m ↦ some (wrap32 (sum_items t p rows), m)
]

abbrev pub item_less : ℤ → Item → Item
item_less q r = record r { quantity = r.quantity -ℤ q }

-- The UPDATEs of inventory_items, one for each reservation with a location.
unfoldable pub take_items : ℕ → ℕ → List Reservation → Tx Db (Unit {0})
unfolding update
take_items t p [] db = ok (tt, db)
take_items t p (r ∷ rs) db =
    let rest = λ (db' : Db). take_items t p rs db' in
    elim r.location_id [
      | none ↦ rest db
      | some l ↦
          if any (λ i. item_at t p l i && not (in_range (item_less r.quantity i).quantity)) db.items
          then err internal
          else rest (record db { items = update (item_at t p l) (item_less r.quantity) db.items })
    ]

unfoldable pub alert_if : ℕ → ℤ → ℤ → ℤ → List Alert
unfolding crossed_below_threshold
alert_if p prev new threshold =
    if crossed_below_threshold prev new threshold
    then record { product_id = p; quantity = new; threshold = threshold } ∷ []
    else []

-- With locations: the alerts of the aggregates, and the latest aggregate.
unfoldable pub take_located : ℕ → ℕ → ℕ → Tx Db (List Alert × Option (ℤ × ℤ))
unfolding aggregate select take_items alert_if
take_located o t p = do
  prev ← gets (λ db. aggregate t p db.items)
  rows ← gets (λ db. select (of_line o t p) db.reservations)
  take_items t p rows
  latest ← gets (λ db. aggregate t p db.items)
  pure (
    elim prev [
      | none ↦ []
      | some (prev_q, thr) ↦ elim latest [
        | none ↦ []
        | some (new_q, _) ↦ alert_if p prev_q new_q thr
      ]
    ],
    latest,
  )

abbrev pub row_pair : Option Stock → List Alert × Option (ℤ × ℤ)
row_pair row = ([], elim row [ none ↦ none | some r ↦ some (r.quantity, r.threshold) ])

unfoldable pub clear_line : ℕ → ℕ → ℕ → Tx Db (Unit {0})
unfolding delete
clear_line o t p =
    modify (λ db. record db { reservations = delete (of_line o t p) db.reservations })

-- The second alert compares with a previous quantity that is worked out from the item.
unfoldable pub last_alert : ℕ → ℤ → Option (ℤ × ℤ) → List Alert
unfolding alert_if
last_alert p delta none = []
last_alert p delta (some (quantity, threshold)) =
    alert_if p (wrap32 (quantity +ℤ delta)) quantity threshold

abbrev pub lower : (Site → Bool) → Bool → ℕ → ℕ → OrderItem → Tx Db (List Alert × Option (ℤ × ℤ))
lower fails multi o t i =
    if multi
    then take_located o t i.product_id
    else (take_or_seed (fails (takes i.product_id)) t i.product_id i.quantity >>= λ row.
        pure (row_pair row))

unfoldable pub complete_item : (Site → Bool) → Bool → ℕ → ℕ → OrderItem → Tx Db (List Alert)
unfolding take_located take_or_seed clear_line last_alert
complete_item fails multi o t i = do
  found ← lower fails multi o t i
  attempt (fails (clears i.product_id)) (clear_line o t i.product_id)
  pure (found.0 ++ last_alert i.product_id i.quantity found.1)

unfoldable pub complete_items : (Site → Bool) → Bool → ℕ → ℕ → List OrderItem → Tx Db (List Alert)
unfolding complete_item
complete_items fails multi o t [] = pure []
complete_items fails multi o t (i ∷ is) = do
  alerts ← complete_item fails multi o t i
  rest ← complete_items fails multi o t is
  pure (alerts ++ rest)

unfoldable pub complete_order : (Site → Bool) → Bool → OrderCompletedEvent → Tx Db (List Alert)
unfolding complete_items
complete_order fails multi e = do
  attempt (fails begin) (pure tt)
  alerts ← complete_items fails multi e.order_id e.tenant_id e.items
  attempt (fails commits) (pure alerts)

unfoldable pub handle_order_completed :
    (Site → Bool) → Bool → OrderCompletedEvent → Db → Result ApiError (List Alert) × Db
unfolding complete_order
handle_order_completed fails multi e = transaction (complete_order fails multi e)

-- The loop is the one of `release_reservation`.
unfoldable pub void_reserved : (Site → Bool) → OrderVoidedEvent → Tx Db (Unit {0})
unfolding delete_order restock_all
void_reserved fails e = do
  attempt (fails begin) (pure tt)
  rows ← attempt (fails (voids Release.deletes)) (delete_order e.order_id e.tenant_id)
  restock_all (λ s. fails (voids s)) e.tenant_id rows
  attempt (fails commits) (pure tt)

unfoldable pub handle_order_voided :
    (Site → Bool) → OrderVoidedEvent → Db → Result ApiError (Unit {0}) × Db
unfolding void_reserved
handle_order_voided fails e = transaction (void_reserved fails e)

abbrev pub or_default : Option ℤ → ℤ → ℤ
or_default o d = elim o [ none ↦ d | some q ↦ q ]

unfoldable pub handle_product_created : (Site → Bool) → ProductCreatedEvent → Db → Db
unfolding insert_absent
handle_product_created fails e db = if fails seeds then db else record db {
  inventory =
      insert_absent (stock_of e.tenant_id e.product_id)
        (record {
          tenant_id = e.tenant_id;
          product_id = e.product_id;
          quantity = or_default e.initial_quantity (pos 0);
          threshold = or_default e.threshold default_threshold;
        })
        db.inventory;
}
