-- ===== src/Inventory/Reserve.antt =====
-- services/inventory-service/src/reservation_handlers.rs: `create_reservation`.
pub mod Cover
use peanut_pos.Base.{
  ℕ, Bool, true, false, ◌&&◌, not, Option, none, some, List, [], ◌∷◌, ◌++◌, ◌+◌, ◌==◌,
  if◌then◌else◌,
}
use peanut_pos.Base.Int.{ℤ, pos, ◌+ℤ◌, ◌-ℤ◌, ltb_ℤ, leb_ℤ, wrap32}
use peanut_pos.Base.Lists.{any}
use peanut_pos.Base.Table.{first}
use peanut_pos.Base.Api.{ApiError, forbidden_missing_role, bad_request, internal, Result, ok, err}
use peanut_pos.Base.Tx.{Tx, ◌>>=◌, ◌>>◌, pure, gets, attempt, require, transaction}
use peanut_pos.Security.Role.{SecurityContext}
use peanut_pos.Security.Policy.{has_capability, inventory_view}
use peanut_pos.Inventory.Store.{
  Db, Reservation, active, held_for, held_at, sum_reserved, quantity_of, quantity_at,
}

pub record ItemPayload : Type 0 where
  pub product_id : ℕ
  pub quantity : ℤ
  pub location_id : Option ℕ

pub record CreateRequest : Type 0 where
  pub order_id : ℕ
  pub items : List ItemPayload

-- ReservationItem of the response.
pub record ReservationItem : Type 0 where
  pub product_id : ℕ
  pub quantity : ℤ
  pub location_id : Option ℕ

-- A total for each product, in the place of the HashMap.
abbrev pub Totals : Type 0
Totals = List (ℕ × ℤ)

-- The statements of the handler, for the ones that the database refuses.
pub data Site : Type 0 where
  begin existing commits : Site
  stock reserved insert : ℕ → Site

-- The configuration and the outside: `iteration` is the order in which the HashMap is walked.
pub record Env : Type 0 where
  pub sec : SecurityContext
  pub multi_location_enabled : Bool
  pub int4_as_i64 : Bool
  pub reservation_default_ttl : ℕ
  pub now : ℕ
  pub fails : Site → Bool
  pub iteration : Totals → Totals

-- *condensed.entry(product).or_insert(0) += quantity, in i32 arithmetic.
unfoldable pub add_total : ℕ → ℤ → Totals → Totals
unfolding wrap32 ◌+ℤ◌
add_total p q [] = (p, wrap32 (pos 0 +ℤ q)) ∷ []
add_total p q ((p', n) ∷ ts) =
    if p' == p then (p', wrap32 (n +ℤ q)) ∷ ts else (p', n) ∷ add_total p q ts

-- The loop over the payload: an error at the first quantity that is not positive.
unfoldable pub condense : List ItemPayload → Totals → Result ApiError Totals
unfolding add_total
condense [] ts = ok ts
condense (i ∷ is) ts =
    if leb_ℤ i.quantity (pos 0)
    then err (bad_request "invalid_quantity")
    else condense is (add_total i.product_id i.quantity ts)

-- The location of the product's first line.
unfoldable pub location_for : List ItemPayload → ℕ → Option ℕ
unfolding first
location_for items p = elim (first (λ i. i.product_id == p) items) [
  | none ↦ none
  | some i ↦ i.location_id
]

-- INSERT INTO inventory_reservations: the CHECK and the primary key (order_id, product_id).
unfoldable pub insert_reservation : Reservation → Tx Db (Unit {0})
insert_reservation r = require (ltb_ℤ (pos 0) r.quantity) internal >> (λ db.
    if any (λ x. (x.order_id == r.order_id) && (x.product_id == r.product_id)) db.reservations
    then err internal
    else ok (tt, record db { reservations = db.reservations ++ r ∷ [] }))

-- Reject where the quantity is more than what is in stock and not reserved, in i32 arithmetic.
unfoldable pub check_available : ℤ → ℤ → ℤ → Tx Db (Unit {0})
check_available quantity current reserved_total =
    require (not (ltb_ℤ (wrap32 (current -ℤ wrap32 reserved_total)) quantity))
      (bad_request "insufficient_stock")

module _ (env : Env) (order_id : ℕ) where
  -- The single-inventory path of the loop's body.
  unfoldable pub reserve_legacy : ℕ → ℤ → Tx Db ReservationItem
  unfolding insert_reservation check_available
  reserve_legacy product_id quantity = do
    current ←
        attempt (env.fails (stock product_id))
          (gets (λ db. quantity_of db.inventory env.sec.tenant_id product_id))
    reserved_total ←
        attempt (env.fails (reserved product_id))
          (gets (λ db. sum_reserved (held_for env.sec.tenant_id product_id) db.reservations))
    check_available quantity current reserved_total
    attempt (env.fails (insert product_id)) (
        insert_reservation (record {
          order_id = order_id;
          tenant_id = env.sec.tenant_id;
          product_id = product_id;
          quantity = quantity;
          location_id = none;
          status = active;
          expires_at = none;
        }))
    pure (record { product_id = product_id; quantity = quantity; location_id = none })

  -- The check of the multi-location path, made only where a location is given.
  unfoldable pub check_located : ℕ → ℤ → Option ℕ → Tx Db (Unit {0})
  unfolding check_available
  check_located product_id quantity none = pure tt
  check_located product_id quantity (some location_id) = do
    current ←
        attempt (env.fails (stock product_id))
          (gets (λ db. quantity_at db.items env.sec.tenant_id product_id location_id))
    reserved_total ← attempt (env.fails (reserved product_id)) (
        gets
          (λ db. sum_reserved (held_at env.sec.tenant_id product_id location_id) db.reservations))
    check_available quantity current reserved_total

  unfoldable pub reserve_located : ℕ → ℤ → Option ℕ → Tx Db ReservationItem
  unfolding check_located insert_reservation
  reserve_located product_id quantity loc = do
    check_located product_id quantity loc
    attempt (env.fails (insert product_id)) (
        insert_reservation (record {
          order_id = order_id;
          tenant_id = env.sec.tenant_id;
          product_id = product_id;
          quantity = quantity;
          location_id = loc;
          status = active;
          expires_at = some (env.now + env.reservation_default_ttl);
        }))
    pure (record { product_id = product_id; quantity = quantity; location_id = loc })

  unfoldable pub reserve_one : List ItemPayload → ℕ × ℤ → Tx Db ReservationItem
  unfolding reserve_legacy reserve_located location_for
  reserve_one items (product_id, quantity) =
      if env.multi_location_enabled
      then reserve_located product_id quantity (location_for items product_id)
      else reserve_legacy product_id quantity

  unfoldable pub reserve_all : List ItemPayload → Totals → Tx Db (List ReservationItem)
  unfolding reserve_one
  reserve_all items [] = pure []
  reserve_all items (t ∷ ts) = do
    item ← reserve_one items t
    rest ← reserve_all items ts
    pure (item ∷ rest)

abbrev pub lift : {A : Type 0} → Result ApiError A → Tx Db A
lift (ok a) db = ok (a, db)
lift (err e) db = err e

-- The body of the transaction, from BEGIN to COMMIT. A row of SELECT 1 that is found cannot be read where
-- sqlx does not give an INT4 as an i64.
unfoldable pub reserve_order : Env → CreateRequest → Tx Db (List ReservationItem)
unfolding condense reserve_all
reserve_order env req = do
  condensed ← lift (condense req.items [])
  attempt (env.fails begin) (pure tt)
  found ←
      attempt (env.fails existing)
        (gets (λ db. any (λ r. r.order_id == req.order_id) db.reservations))
  require (not found) (if env.int4_as_i64 then bad_request "reservation_exists" else internal)
  reserved_items ← reserve_all env req.order_id req.items (env.iteration condensed)
  attempt (env.fails commits) (pure reserved_items)

abbrev pub is_empty : List ItemPayload → Bool
is_empty [] = true
is_empty (i ∷ is) = false

-- The checks that come before the transaction, and the transaction's body.
unfoldable pub reserve_checked : Env → CreateRequest → Tx Db (List ReservationItem)
unfolding reserve_order has_capability
reserve_checked env req = do
  require (has_capability env.sec inventory_view) (forbidden_missing_role "inventory_view")
  require (not (is_empty req.items)) (bad_request "empty_reservation")
  reserve_order env req

unfoldable pub create_reservation :
    Env → CreateRequest → Db → Result ApiError (List ReservationItem) × Db
unfolding reserve_checked
create_reservation env req = transaction (reserve_checked env req)
