-- ===== src/Inventory/Release/Twice.antt =====
-- What a release does to stock and to availability.
use peanut_pos.Base.{
  ℕ, ◌≡◌, refl, ap, ◌∙◌, inl, inr, Bool, false, Bool-cases, none, some, List, [], ◌∷◌, ◌==◌, arith,
  if◌then◌else◌,
}
use peanut_pos.Base.Int.{ℤ, pos, ◌+ℤ◌, ◌-ℤ◌, ◌<ℤ◌, int_laws, +ℤ_assoc}
use peanut_pos.Base.Lists.{All}
use peanut_pos.Base.Table.{first, select, update, delete, first-update, first-update_ne}
use peanut_pos.Base.Api.{ok}
use peanut_pos.Inventory.Store.{
  Db, Stock, Reservation, stock_of, of_order, held_for, sum_reserved, quantity_of,
}
use peanut_pos.Inventory.Reserve.{ReservationItem}
use peanut_pos.Inventory.Release.{
  Env, Site, moved_by, add_stock, restock, restock_all, delete_order, release_order,
  release_checked, release_reservation,
}

-- The tenant has a stock row for the product.
abbrev pub HasRow : ℕ → ℕ → List Stock → Type 0
HasRow t p rows = (r : Stock) × (first (stock_of t p) rows ≡ some r)

module _ (t p p' : ℕ) (d : ℤ) (rows : List Stock) where
  first_moved : first (stock_of t p') (update (stock_of t p) (moved_by d) rows) ≡ (
      if p == p'
      then elim (first (stock_of t p') rows) [ none ↦ none | some r ↦ some (moved_by d r) ]
      else first (stock_of t p') rows)
  first_moved = elim (Bool-cases (p == p')) [
    | inl e ↦ rw e (
        first-update (stock_of t p') (stock_of t p) (moved_by d) rows (λ r. refl)
          (λ r h. ground arith))
    | inr e ↦ rw e (
        first-update_ne (stock_of t p') (stock_of t p) (moved_by d) rows (λ r. refl)
          (λ r h. ground arith))
  ]

  HasRow-moved : HasRow t p' rows → HasRow t p' (update (stock_of t p) (moved_by d) rows)
  HasRow-moved (r, h) = elim (Bool-cases (p == p')) [
    | inl e ↦ (moved_by d r, rw (first_moved, e, h) refl)
    | inr e ↦ (r, rw (first_moved, e) h)
  ]

  quantity_moved :
      HasRow t p' rows
      → quantity_of (update (stock_of t p) (moved_by d) rows) t p'
        ≡ quantity_of rows t p' +ℤ (if p == p' then d else pos 0)
  unfolding quantity_of
  quantity_moved (r, h) = elim (Bool-cases (p == p')) [
    | inl e ↦ rw (first_moved, quantity_of, e, h) refl
    | inr e ↦ rw (first_moved, quantity_of, e, h) (omega int_laws)
  ]

abbrev pub of_product : ℕ → Reservation → Bool
of_product p r = r.product_id == p

abbrev pub HasRows : ℕ → List Stock → List Reservation → Type 0
HasRows t rows = All (λ r. HasRow t r.product_id rows)

HasRows-moved :
    (t p : ℕ) (d : ℤ) (rows : List Stock) (rs : List Reservation)
    → HasRows t rows rs
    → HasRows t (update (stock_of t p) (moved_by d) rows) rs
HasRows-moved t p d rows [] hs = tt
HasRows-moved t p d rows (r ∷ rs) (h, hs) =
    (HasRow-moved t p r.product_id d rows h, HasRows-moved t p d rows rs hs)

restock_all-cons :
    (fails : Site → Bool) (t : ℕ) (r : Reservation) (rs : List Reservation) (db db' : Db)
    → pos 0 <ℤ r.quantity
    → HasRow t r.product_id db.inventory
    → restock_all fails t (r ∷ rs) db ≡ ok (tt, db')
    → restock_all fails t rs (record db {
      inventory = update (stock_of t r.product_id) (moved_by r.quantity) db.inventory;
    })
      ≡ ok (tt, db')
unfolding restock_all restock add_stock
restock_all-cons fails t r rs db db' q has h =
    let (m, found) = HasRow-moved t r.product_id r.product_id r.quantity db.inventory has in
    ground arith

-- The sum that the rows of one product add to its stock.
restock_all-quantities :
    (fails : Site → Bool) (t p : ℕ) (rs : List Reservation) (db db' : Db)
    → All (λ r. pos 0 <ℤ r.quantity) rs
    → HasRows t db.inventory rs
    → HasRow t p db.inventory
    → restock_all fails t rs db ≡ ok (tt, db')
    → (quantity_of db'.inventory t p
        ≡ quantity_of db.inventory t p +ℤ sum_reserved (of_product p) rs)
      × (db'.reservations ≡ db.reservations)
unfolding restock_all sum_reserved
restock_all-quantities fails t p [] db db' ps hs has h =
    let same : db ≡ db' = ground arith in rw (← same) (omega int_laws, refl)
restock_all-quantities fails t p (r ∷ rs) db db' (q, ps) (has_r, hs) has h =
    let moved = update (stock_of t r.product_id) (moved_by r.quantity) db.inventory in
    let rest =
      restock_all-quantities fails t p rs (record db { inventory = moved }) db' ps
        (HasRows-moved t r.product_id r.quantity db.inventory rs hs)
        (HasRow-moved t r.product_id p r.quantity db.inventory has)
        (restock_all-cons fails t r rs db db' q has_r h) in
    (
      rest.0
          ∙ ap (λ x. x +ℤ sum_reserved (of_product p) rs)
              (quantity_moved t r.product_id p r.quantity db.inventory has)
          ∙ +ℤ_assoc (quantity_of db.inventory t p)
              (if r.product_id == p then r.quantity else pos 0) (sum_reserved (of_product p) rs),
      rest.1,
    )

swap_sums : (a d s h : ℤ) → d +ℤ s ≡ h → d +ℤ (a +ℤ s) ≡ a +ℤ h
swap_sums a d s h e = rw (← e) (omega int_laws)

pub left_sums : (a d s h : ℤ) → d +ℤ s ≡ h → a +ℤ d +ℤ s ≡ a +ℤ h
left_sums a d s h e = rw (← e) (omega int_laws)

abbrev pub counted : Bool → ℤ → ℤ
counted b q = if b then q else pos 0

-- What the deleted rows no longer hold, in a tenant's product.
delete-sum :
    (o t p : ℕ) (rs : List Reservation)
    → sum_reserved (held_for t p) (delete (of_order o t) rs)
        +ℤ sum_reserved (of_product p) (select (of_order o t) rs)
      ≡ sum_reserved (held_for t p) rs
unfolding sum_reserved delete select
delete-sum o t p [] = omega int_laws
delete-sum o t p (r ∷ rs) =
    let rest = delete-sum o t p rs in
    elim (Bool-cases (of_order o t r)) [
      | inl e ↦
          let at_tenant : held_for t p r ≡ of_product p r = ground arith in
          rw (e, at_tenant, sum_reserved)
            (swap_sums (counted (of_product p r) r.quantity)
              (sum_reserved (held_for t p) (delete (of_order o t) rs))
              (sum_reserved (of_product p) (select (of_order o t) rs))
              (sum_reserved (held_for t p) rs) rest)
      | inr e ↦
          rw (e, sum_reserved)
            (left_sums (counted (held_for t p r) r.quantity)
              (sum_reserved (held_for t p) (delete (of_order o t) rs))
              (sum_reserved (of_product p) (select (of_order o t) rs))
              (sum_reserved (held_for t p) rs) rest)
    ]

-- A successful release, its steps made explicit.
release_reservation-steps :
    (env : Env) (order_id : ℕ) (db : Db) (v : List ReservationItem)
    → (release_reservation env order_id db).0 ≡ ok v
    → restock_all env.fails env.sec.tenant_id
        (select (of_order order_id env.sec.tenant_id) db.reservations)
        (record db { reservations = delete (of_order order_id env.sec.tenant_id) db.reservations })
      ≡ ok (tt, (release_reservation env order_id db).1)
unfolding release_reservation release_checked release_order delete_order
release_reservation-steps env order_id db v h = ground arith

-- What the stock check of a reservation compares with a request where locations are disabled: the stock
-- less the open holds.
abbrev pub available : ℕ → ℕ → Db → ℤ
available t p db = quantity_of db.inventory t p -ℤ sum_reserved (held_for t p) db.reservations

pub twice : (q q' h h' x : ℤ) → q' ≡ q +ℤ x → h' +ℤ x ≡ h → q' -ℤ h' ≡ q -ℤ h +ℤ x +ℤ x
twice q q' h h' x e f = rw (e, ← f) (omega int_laws)

-- With locations disabled, a successful release of an order whose reservations have positive quantities and whose products
-- have stock rows raises the availability of each such product by twice what the order held of it:
-- once because the hold is gone, and once because the stock, which the reservation never lowered, is
-- raised.
pub release_returns_twice :
    (env : Env) (order_id p : ℕ) (db : Db) (v : List ReservationItem)
    → env.multi_location_enabled ≡ false
    → All (λ r. pos 0 <ℤ r.quantity) (select (of_order order_id env.sec.tenant_id) db.reservations)
    → HasRows env.sec.tenant_id db.inventory
        (select (of_order order_id env.sec.tenant_id) db.reservations)
    → HasRow env.sec.tenant_id p db.inventory
    → (release_reservation env order_id db).0 ≡ ok v
    → available env.sec.tenant_id p (release_reservation env order_id db).1
      ≡ available env.sec.tenant_id p db
        +ℤ sum_reserved
            (of_product p)
            (select (of_order order_id env.sec.tenant_id) db.reservations)
        +ℤ sum_reserved
            (of_product p)
            (select (of_order order_id env.sec.tenant_id) db.reservations)
release_returns_twice env order_id p db v single ps hs has h =
    let t = env.sec.tenant_id in
    let rows = select (of_order order_id t) db.reservations in
    let left = delete (of_order order_id t) db.reservations in
    let after = (release_reservation env order_id db).1 in
    let (stock, kept) =
      restock_all-quantities env.fails t p rows (record db { reservations = left }) after ps hs has
        (release_reservation-steps env order_id db v h) in
    twice (quantity_of db.inventory t p) (quantity_of after.inventory t p)
      (sum_reserved (held_for t p) db.reservations) (sum_reserved (held_for t p) after.reservations)
      (sum_reserved (of_product p) rows) stock
      (ap (λ rs. sum_reserved (held_for t p) rs +ℤ sum_reserved (of_product p) rows) kept
        ∙ delete-sum order_id t p db.reservations)
