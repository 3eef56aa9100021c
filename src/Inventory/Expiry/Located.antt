-- ===== src/Inventory/Expiry/Located.antt =====
-- What a sweep does to availability where the stock has locations.
use peanut_pos.Base.{
  ℕ, ◌≡◌, ◌≢◌, refl, ap, ◌∙◌, inl, inr, Bool, true, false, ◌&&◌, Bool-cases, none, some,
  Option-cases, List, [], ◌∷◌, ◌==◌, arith, if◌then◌else◌, same,
}
use peanut_pos.Base.Int.{ℤ, pos, ◌+ℤ◌, ◌-ℤ◌, int_laws, +ℤ_assoc}
use peanut_pos.Base.Table.{first, select, update, first-update, first-update_ne}
use peanut_pos.Base.Api.{ok}
use peanut_pos.Inventory.Store.{
  Db, Item, Reservation, item_at, held_for, held_at, sum_reserved, quantity_at,
}
use peanut_pos.Inventory.Release.Twice.{left_sums, twice, counted}
use peanut_pos.Inventory.Expiry.{
  Env, is_due, expire, item_more, restock_item, restock_row, restock_due, expire_reservations,
}
use peanut_pos.Inventory.Expiry.Sweep.{marked, sweep-steps, restock_due-steps, swept-reservations}

-- There is stock of the product at the location.
abbrev pub HasItem : ℕ → ℕ → ℕ → List Item → Type 0
HasItem t p l rows = (r : Item) × (first (item_at t p l) rows ≡ some r)

-- A reservation of the product at the location.
abbrev pub placed : ℕ → ℕ → ℕ → Reservation → Bool
placed t p l r = held_for t p r && same r.location_id (some l)

-- What the stock check of a reservation with a location compares with a request.
abbrev pub available_at : ℕ → ℕ → ℕ → Db → ℤ
available_at t p l db = quantity_at db.items t p l -ℤ sum_reserved (held_at t p l) db.reservations

abbrev here : ℕ → ℕ → ℕ → ℕ → ℕ → ℕ → Bool
here t p l t' p' l' = (t' == t) && ((p' == p) && (l' == l))

module _ (t p l t' p' l' : ℕ) (q : ℤ) (rows : List Item) (r : Item)
    (found : first (item_at t p l) rows ≡ some r) where
  first-more :
      first (item_at t p l) (update (item_at t' p' l') (item_more q) rows)
      ≡ some (if here t p l t' p' l' then item_more q r else r)
  first-more = elim (Bool-cases (here t p l t' p' l')) [
    | inl e ↦ rw e (
        first-update (item_at t p l) (item_at t' p' l') (item_more q) rows (λ r. refl)
          (λ r h. ground arith)
        ∙ rw found refl)
    | inr e ↦ rw e (
        first-update_ne (item_at t p l) (item_at t' p' l') (item_more q) rows (λ r. refl)
          (λ r h. ground arith)
        ∙ found)
  ]

  quantity-more :
      quantity_at (update (item_at t' p' l') (item_more q) rows) t p l
      ≡ quantity_at rows t p l +ℤ (if here t p l t' p' l' then q else pos 0)
  unfolding quantity_at
  quantity-more = elim (Bool-cases (here t p l t' p' l')) [
    | inl e ↦ rw (first-more, found, quantity_at, e) refl
    | inr e ↦ rw (first-more, found, quantity_at, e) (omega int_laws)
  ]

module _ (t p l : ℕ) where
  placed_nowhere : (r : Reservation) → r.location_id ≡ none → placed t p l r ≡ false
  placed_nowhere r e = rw e (ground arith)

  placed_there :
      (r : Reservation) (l' : ℕ)
      → r.location_id ≡ some l'
      → here t p l r.tenant_id r.product_id l' ≡ placed t p l r
  placed_there r l' e = rw e (ground arith)

  -- What one returned row does to the stock of the location.
  row-quantity :
      (env : Env) (r : Reservation) (db db' : Db)
      → env.multi_location_enabled ≡ true
      → HasItem t p l db.items
      → restock_row env r db ≡ ok (tt, db')
      → (quantity_at db'.items t p l
          ≡ quantity_at db.items t p l +ℤ (if placed t p l r then r.quantity else pos 0))
        × HasItem t p l db'.items
  unfolding restock_row restock_item
  row-quantity env r db db' multi (i, found) h = elim (Option-cases r.location_id) [
    | inl e ↦
        let kept : db' ≡ db = ground arith in
        rw (kept, placed_nowhere r e) (omega int_laws, (i, found))
    | inr (l', e) ↦
        let moved : db' ≡ record db {
          items = update (item_at r.tenant_id r.product_id l') (item_more r.quantity) db.items;
        } =
          ground arith in
        rw (moved, ← placed_there r l' e)
          (
            quantity-more t p l r.tenant_id r.product_id l' r.quantity db.items i found,
            (
              (if here t p l r.tenant_id r.product_id l' then item_more r.quantity i else i),
              first-more t p l r.tenant_id r.product_id l' r.quantity db.items i found,
            ),
          )
  ]

  rows-quantity :
      (env : Env) (rs : List Reservation) (db db' : Db)
      → env.multi_location_enabled ≡ true
      → HasItem t p l db.items
      → restock_due env rs db ≡ ok (tt, db')
      → quantity_at db'.items t p l ≡ quantity_at db.items t p l +ℤ sum_reserved (placed t p l) rs
  unfolding restock_due sum_reserved
  rows-quantity env [] db db' multi has h =
      let kept : db ≡ db' = ground arith in rw (← kept) (omega int_laws)
  rows-quantity env (r ∷ rs) db db' multi has h =
      let (db₁, k, rest) = restock_due-steps env r rs db db' h in
      let (one, has₁) = row-quantity env r db db₁ multi has k in
      rows-quantity env rs db₁ db' multi has₁ rest
      ∙ ap (λ x. x +ℤ sum_reserved (placed t p l) rs) one
      ∙ +ℤ_assoc (quantity_at db.items t p l) (if placed t p l r then r.quantity else pos 0)
          (sum_reserved (placed t p l) rs)

drop_sums : (a d s h : ℤ) → d +ℤ s ≡ h → pos 0 +ℤ d +ℤ (a +ℤ s) ≡ a +ℤ h
drop_sums a d s h e = rw (← e) (omega int_laws)

-- The rows that expire are no longer held.
expired-sum :
    (now t p l : ℕ) (rs : List Reservation)
    → sum_reserved (held_at t p l) (update (is_due now) expire rs)
        +ℤ sum_reserved (placed t p l) (select (is_due now) rs)
      ≡ sum_reserved (held_at t p l) rs
unfolding sum_reserved update select
expired-sum now t p l [] = omega int_laws
expired-sum now t p l (r ∷ rs) =
    let rest = expired-sum now t p l rs in
    elim (Bool-cases (is_due now r)) [
      | inl e ↦
          let before : held_at t p l r ≡ placed t p l r = ground arith in
          let after : held_at t p l (expire r) ≡ false = ground arith in
          rw (e, before, after, sum_reserved)
            (drop_sums (counted (placed t p l r) r.quantity)
              (sum_reserved (held_at t p l) (update (is_due now) expire rs))
              (sum_reserved (placed t p l) (select (is_due now) rs))
              (sum_reserved (held_at t p l) rs) rest)
      | inr e ↦
          rw (e, sum_reserved)
            (left_sums (counted (held_at t p l r) r.quantity)
              (sum_reserved (held_at t p l) (update (is_due now) expire rs))
              (sum_reserved (placed t p l) (select (is_due now) rs))
              (sum_reserved (held_at t p l) rs) rest)
    ]

-- With locations, a sweep that changes the tables raises what is available of a product at a location that
-- stocks it by twice what the expired reservations held there: once because they are no longer
-- active, and once because their quantities are added to a stock that they never lowered.
pub expiry_returns_twice :
    (env : Env) (t p l : ℕ) (db : Db)
    → env.multi_location_enabled ≡ true
    → HasItem t p l db.items
    → (expire_reservations env db).1 ≢ db
    → available_at t p l (expire_reservations env db).1
      ≡ available_at t p l db
        +ℤ sum_reserved (placed t p l) (select (is_due env.now) db.reservations)
        +ℤ sum_reserved (placed t p l) (select (is_due env.now) db.reservations)
expiry_returns_twice env t p l db multi has h =
    let after = (expire_reservations env db).1 in
    let rows = select (is_due env.now) db.reservations in
    twice (quantity_at db.items t p l) (quantity_at after.items t p l)
      (sum_reserved (held_at t p l) db.reservations)
      (sum_reserved (held_at t p l) after.reservations) (sum_reserved (placed t p l) rows)
      (rows-quantity t p l env rows (marked env.now db) after multi has (sweep-steps env db h))
      (ap (λ rs. sum_reserved (held_at t p l) rs +ℤ sum_reserved (placed t p l) rows)
          (swept-reservations env db h)
        ∙ expired-sum env.now t p l db.reservations)
