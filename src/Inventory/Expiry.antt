-- ===== src/Inventory/Expiry.antt =====
-- services/inventory-service/src/main.rs: `expire_reservations`, the sweep over reservations that are
-- due. A refused statement of its loop aborts the transaction, whose commit then rolls back and answers
-- all the same. The events that the sweep sends and the validation of the dual write are left out.
pub mod Sweep
pub mod Located
use peanut_pos.Base.{
  ℕ, Bool, false, not, ◌&&◌, ◌||◌, Option, none, some, List, [], ◌∷◌, ltb, if◌then◌else◌,
}
use peanut_pos.Base.Int.{ℤ, ◌+ℤ◌}
use peanut_pos.Base.Lists.{any}
use peanut_pos.Base.Table.{select, update}
use peanut_pos.Base.Api.{ApiError, internal, Result, ok, err}
use peanut_pos.Base.Tx.{Tx, ◌>>=◌, ◌>>◌, pure, attempt}
use peanut_pos.Inventory.Store.{
  Db, Item, Reservation, is_active, expired, stock_of, item_at, in_range,
}
use peanut_pos.Inventory.Release.{moved_by}

pub data Site : Type 0 where
  begin marks commits : Site
  restocks : ℕ → Site

pub record Env : Type 0 where
  pub multi_location_enabled : Bool
  pub now : ℕ
  pub fails : Site → Bool

abbrev pub is_due : ℕ → Reservation → Bool
is_due now r = is_active r.status && elim r.expires_at [ none ↦ false | some at ↦ ltb at now ]

abbrev pub expire : Reservation → Reservation
expire r = record r { status = expired }

-- UPDATE ... SET status = 'EXPIRED' WHERE ... RETURNING ...
unfoldable pub mark_due : ℕ → Tx Db (List Reservation)
unfolding select update
mark_due now db = ok (
  select (is_due now) db.reservations,
  record db { reservations = update (is_due now) expire db.reservations },
)

abbrev pub item_more : ℤ → Item → Item
item_more q r = record r { quantity = r.quantity +ℤ q }

unfoldable pub restock_item : ℕ → ℕ → Option ℕ → ℤ → Tx Db (Unit {0})
unfolding update
restock_item t p location q db = elim location [
  | none ↦ ok (tt, db)
  | some l ↦
      if any (λ i. item_at t p l i && not (in_range (item_more q i).quantity)) db.items
      then err internal
      else ok (tt, record db { items = update (item_at t p l) (item_more q) db.items })
]

unfoldable pub restock_stock : ℕ → ℕ → ℤ → Tx Db (Unit {0})
unfolding update
restock_stock t p q db =
    if any (λ r. stock_of t p r && not (in_range (moved_by q r).quantity)) db.inventory
    then err internal
    else ok (tt, record db { inventory = update (stock_of t p) (moved_by q) db.inventory })

unfoldable pub restock_row : Env → Reservation → Tx Db (Unit {0})
unfolding restock_item restock_stock
restock_row env r = attempt (env.fails (restocks r.product_id)) (
    if env.multi_location_enabled
    then restock_item r.tenant_id r.product_id r.location_id r.quantity
    else restock_stock r.tenant_id r.product_id r.quantity)

unfoldable pub restock_due : Env → List Reservation → Tx Db (Unit {0})
unfolding restock_row
restock_due env [] = pure tt
restock_due env (r ∷ rs) = restock_row env r >> restock_due env rs

-- The refusal of a statement of the loop is discarded, like those of the statements after it in the
-- transaction that it aborts; the COMMIT then rolls back, and is not refused for that.
unfoldable pub commit_sweep :
    Env → Db → Result ApiError (Unit {0} × Db) → Result ApiError (Unit {0}) × Db
commit_sweep env db (err e) = (if env.fails commits then err internal else ok tt, db)
commit_sweep env db (ok (u, db')) = if env.fails commits then (err internal, db) else (ok tt, db')

unfoldable pub restock_marked : Env → Db → Result ApiError (Unit {0} × Db)
unfolding mark_due restock_due
restock_marked env db = elim (mark_due env.now db) [
  | err e ↦ err e
  | ok (rows, db') ↦ restock_due env rows db'
]

unfoldable pub expire_reservations : Env → Db → Result ApiError (Unit {0}) × Db
unfolding commit_sweep restock_marked
expire_reservations env db =
    if env.fails begin || env.fails marks
    then (err internal, db)
    else commit_sweep env db (restock_marked env db)
