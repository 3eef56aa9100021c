-- ===== src/Inventory/Release.antt =====
-- services/inventory-service/src/reservation_handlers.rs: `release_reservation`, whose restocking loop
-- `handle_order_voided` of main.rs repeats.
pub mod Twice
use peanut_pos.Base.{ℕ, Bool, ◌&&◌, not, Option, none, some, List, [], ◌∷◌, if◌then◌else◌}
use peanut_pos.Base.Int.{ℤ, pos, ◌+ℤ◌, leb_ℤ}
use peanut_pos.Base.Lists.{any}
use peanut_pos.Base.Table.{first, select, update, delete, insert_absent}
use peanut_pos.Base.Api.{ApiError, forbidden_missing_role, internal, Result, ok, err}
use peanut_pos.Base.Tx.{Tx, ◌>>=◌, ◌>>◌, pure, attempt, require, transaction}
use peanut_pos.Security.Role.{SecurityContext}
use peanut_pos.Security.Policy.{has_capability, inventory_view}
use peanut_pos.Inventory.Store.{
  Db, Stock, Reservation, stock_of, of_order, in_range, default_threshold,
}
use peanut_pos.Inventory.Reserve.{ReservationItem}

-- UPDATE inventory SET quantity = quantity + $1 WHERE product_id = $2 AND tenant_id = $3 RETURNING ...
abbrev pub moved_by : ℤ → Stock → Stock
moved_by d r = record r { quantity = r.quantity +ℤ d }

unfoldable pub add_stock : ℕ → ℕ → ℤ → Tx Db (Option Stock)
unfolding first update
add_stock t p d db =
    if any (λ r. stock_of t p r && not (in_range (moved_by d r).quantity)) db.inventory
    then err internal
    else let inventory = update (stock_of t p) (moved_by d) db.inventory in
      ok (first (stock_of t p) inventory, record db { inventory = inventory })

-- INSERT INTO inventory ... ON CONFLICT (product_id, tenant_id) DO NOTHING.
unfoldable pub seed_stock : ℕ → ℕ → ℤ → ℤ → Tx Db (Unit {0})
unfolding insert_absent
seed_stock t p quantity threshold db = ok (
  tt,
  record db {
    inventory =
        insert_absent (stock_of t p)
          (record { tenant_id = t; product_id = p; quantity = quantity; threshold = threshold })
          db.inventory;
  },
)

-- The loop that adds a released quantity: update the row; where there is none, insert one with the
-- quantity and update again. The flag says that a statement was refused.
unfoldable pub restock : Bool → ℕ → ℕ → ℤ → Tx Db (Unit {0})
unfolding add_stock seed_stock
restock failed t p quantity = do
  row ← attempt failed (add_stock t p quantity)
  elim row [
    | some _ ↦ pure tt
    | none ↦ do seed_stock t p quantity default_threshold; _ ← add_stock t p quantity; pure tt
  ]

-- What a DELETE ... RETURNING gives for each reservation; the location is selected in the
-- multi-location mode only.
abbrev pub returned_item : Bool → Reservation → ReservationItem
returned_item multi r = record {
  product_id = r.product_id;
  quantity = r.quantity;
  location_id = if multi then r.location_id else none;
}

pub data Site : Type 0 where
  begin deletes commits : Site
  restocks : ℕ → Site

pub record Env : Type 0 where
  pub sec : SecurityContext
  pub multi_location_enabled : Bool
  pub fails : Site → Bool

unfoldable pub restock_all : (Site → Bool) → ℕ → List Reservation → Tx Db (Unit {0})
unfolding restock
restock_all fails t [] = pure tt
restock_all fails t (r ∷ rs) =
    (if leb_ℤ r.quantity (pos 0)
      then pure tt
      else restock (fails (restocks r.product_id)) t r.product_id r.quantity)
    >> restock_all fails t rs

unfoldable pub delete_order : ℕ → ℕ → Tx Db (List Reservation)
unfolding select delete
delete_order order_id t db = ok (
  select (of_order order_id t) db.reservations,
  record db { reservations = delete (of_order order_id t) db.reservations },
)

abbrev pub items_of : Bool → List Reservation → List ReservationItem
items_of multi [] = []
items_of multi (r ∷ rs) = returned_item multi r ∷ items_of multi rs

unfoldable pub release_order : Env → ℕ → Tx Db (List ReservationItem)
unfolding delete_order restock_all
release_order env order_id = do
  attempt (env.fails begin) (pure tt)
  rows ← attempt (env.fails deletes) (delete_order order_id env.sec.tenant_id)
  restock_all env.fails env.sec.tenant_id rows
  attempt (env.fails commits) (pure (items_of env.multi_location_enabled rows))

unfoldable pub release_checked : Env → ℕ → Tx Db (List ReservationItem)
unfolding release_order has_capability
release_checked env order_id =
    require (has_capability env.sec inventory_view) (forbidden_missing_role "inventory_view")
    >> release_order env order_id

unfoldable pub release_reservation : Env → ℕ → Db → Result ApiError (List ReservationItem) × Db
unfolding release_checked
release_reservation env order_id = transaction (release_checked env order_id)
