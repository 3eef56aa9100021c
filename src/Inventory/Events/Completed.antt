-- ===== src/Inventory/Events/Completed.antt =====
-- What a completed order does to stock and reservations where the stock has no locations.
use peanut_pos.Base.{
  ℕ, ◌≡◌, refl, sym, ap, ◌∙◌, inl, inr, Bool, false, ◌&&◌, ◌||◌, Bool-cases, Option, none, some,
  Option-cases, List, [], ◌∷◌, ◌++◌, ◌==◌, ==_refl, arith, if◌then◌else◌,
}
use peanut_pos.Base.Int.{ℤ, pos, ◌+ℤ◌, int_laws}
use peanut_pos.Base.Lists.{any}
use peanut_pos.Base.Table.{
  first, update, delete, insert_absent, first-update, first-update_ne, first-append,
}
use peanut_pos.Base.Api.{ok, Result-cases}
use peanut_pos.Inventory.Store.{
  Db, Stock, Reservation, stock_of, of_order, quantity_of, default_threshold,
}
use peanut_pos.Inventory.Release.{seed_stock}
use peanut_pos.Inventory.Events.{
  OrderItem, OrderCompletedEvent, Alert, Site, takes, taken_by, take_stock, take_or_seed, of_line,
  clear_line, complete_item, complete_items, complete_order, handle_order_completed,
}

-- What an order asks of a product, over its lines.
unfoldable pub ordered : ℕ → List OrderItem → ℤ
ordered p [] = pos 0
ordered p (i ∷ is) = (if i.product_id == p then i.quantity else pos 0) +ℤ ordered p is

-- A row of the order for one of its products.
abbrev pub of_lines : ℕ → ℕ → List OrderItem → Reservation → Bool
of_lines o t items r = of_order o t r && any (λ i. r.product_id == i.product_id) items

delete-delete :
    (p q s : Reservation → Bool) (rs : List Reservation)
    → ((r : Reservation) → s r ≡ (p r || q r))
    → delete q (delete p rs) ≡ delete s rs
unfolding delete
delete-delete p q s [] h = refl
delete-delete p q s (r ∷ rs) h = ground (arith, h r, delete-delete p q s rs h)

delete-none :
    (p : Reservation → Bool) (rs : List Reservation)
    → ((r : Reservation) → p r ≡ false)
    → delete p rs ≡ rs
unfolding delete
delete-none p [] h = refl
delete-none p (r ∷ rs) h = ground (arith, h r, delete-none p rs h)

module _ (t p : ℕ) (d : ℤ) where
  -- The row of the product is there, and is lowered.
  quantity_taken :
      (p' : ℕ) (rows : List Stock) (r : Stock)
      → first (stock_of t p) rows ≡ some r
      → quantity_of (update (stock_of t p) (taken_by d) rows) t p' +ℤ (if p == p' then d else pos 0)
        ≡ quantity_of rows t p'
  unfolding quantity_of
  quantity_taken p' rows r found = elim (Bool-cases (p == p')) [
    | inr e ↦
        rw
          (
            first-update_ne (stock_of t p') (stock_of t p) (taken_by d) rows (λ r. refl)
                (λ r h. ground arith),
            quantity_of,
            e,
          )
          (omega int_laws)
    | inl e ↦
        let same : p ≡ p' = ground arith in
        let found' : first (stock_of t p') rows ≡ some r = rw (← same) found in
        rw
          (
            first-update (stock_of t p') (stock_of t p) (taken_by d) rows (λ r. refl)
                (λ r h. ground arith),
            quantity_of,
            e,
            found',
          )
          (omega int_laws)
  ]

  -- The row that is inserted changes no quantity.
  quantity_seeded :
      (p' : ℕ) (rows : List Stock) (th : ℤ)
      → first (stock_of t p) rows ≡ none
      → quantity_of
          (rows ++ record { tenant_id = t; product_id = p; quantity = pos 0; threshold = th } ∷ [])
          t
          p'
        ≡ quantity_of rows t p'
  unfolding quantity_of first
  quantity_seeded p' rows th missing = elim (Option-cases (first (stock_of t p') rows)) [
    | inl e ↦
        rw
          (
            first-append (stock_of t p') rows
                (record { tenant_id = t; product_id = p; quantity = pos 0; threshold = th } ∷ []),
            quantity_of,
            e,
          )
          (ground arith)
    | inr (r, e) ↦
        rw
          (
            first-append (stock_of t p') rows
                (record { tenant_id = t; product_id = p; quantity = pos 0; threshold = th } ∷ []),
            quantity_of,
            e,
          )
          refl
  ]

  first-taken :
      (rows : List Stock)
      → first (stock_of t p) rows ≡ none
      → update (stock_of t p) (taken_by d) rows ≡ rows
  unfolding first update
  first-taken [] h = refl
  first-taken (r ∷ rows) h = ground (arith, first-taken rows)

abbrev seed : ℕ → ℕ → Stock
seed t p = record { tenant_id = t; product_id = p; quantity = pos 0; threshold = default_threshold }

module _ (t p : ℕ) (d : ℤ) (failed : Bool) (db db' : Db) (o : Option Stock)
    (taken : take_or_seed failed t p d db ≡ ok (o, db')) where
  taken_found :
      (r : Stock)
      → first (stock_of t p) db.inventory ≡ some r
      → db' ≡ record db { inventory = update (stock_of t p) (taken_by d) db.inventory }
  unfolding take_or_seed take_stock
  taken_found r found =
      let kept : first (stock_of t p) (update (stock_of t p) (taken_by d) db.inventory)
          ≡ some (taken_by d r) =
        first-update (stock_of t p) (stock_of t p) (taken_by d) db.inventory (λ r. refl) (λ r h. h)
        ∙ rw found refl in
      ground arith

  taken_missing :
      first (stock_of t p) db.inventory ≡ none
      → db' ≡ record db {
        inventory = update (stock_of t p) (taken_by d) (db.inventory ++ seed t p ∷ []);
      }
  unfolding take_or_seed take_stock seed_stock insert_absent
  taken_missing missing =
      let same : update (stock_of t p) (taken_by d) db.inventory ≡ db.inventory =
        first-taken t p d db.inventory missing in
      ground arith

  seed_found :
      first (stock_of t p) db.inventory ≡ none
      → first (stock_of t p) (db.inventory ++ seed t p ∷ []) ≡ some (seed t p)
  unfolding first
  seed_found missing =
      first-append (stock_of t p) db.inventory (seed t p ∷ [])
      ∙ rw missing (ground (arith, ==_refl t, ==_refl p))

  taken-quantity :
      (p' : ℕ)
      → (quantity_of db'.inventory t p' +ℤ (if p == p' then d else pos 0)
          ≡ quantity_of db.inventory t p')
        × (db'.reservations ≡ db.reservations)
  taken-quantity p' = elim (Option-cases (first (stock_of t p) db.inventory)) [
    | inr (r, e) ↦ rw (taken_found r e) (quantity_taken t p d p' db.inventory r e, refl)
    | inl e ↦ rw (taken_missing e) (
      quantity_taken t p d p' (db.inventory ++ seed t p ∷ []) (seed t p) (seed_found e)
          ∙ quantity_seeded t p d p' db.inventory default_threshold e,
      refl,
    )
  ]

chained : (q'' q' q d e : ℤ) → q'' +ℤ e ≡ q' → q' +ℤ d ≡ q → q'' +ℤ (d +ℤ e) ≡ q
chained q'' q' q d e h k = rw (← k, ← h) (omega int_laws)

module _ (fails : Site → Bool) (o t : ℕ) where
  -- What one line leaves: its product's stock is lowered and its reservations are gone.
  item-effect :
      (i : OrderItem) (db db' : Db) (alerts : List Alert) (p : ℕ)
      → complete_item fails false o t i db ≡ ok (alerts, db')
      → (quantity_of db'.inventory t p +ℤ (if i.product_id == p then i.quantity else pos 0)
          ≡ quantity_of db.inventory t p)
        × (db'.reservations ≡ delete (of_line o t i.product_id) db.reservations)
  unfolding complete_item clear_line
  item-effect i db db' alerts p h =
      elim (Result-cases (take_or_seed (fails (takes i.product_id)) t i.product_id i.quantity db)) [
        | inl (e, k) ↦ absurd (ground arith)
        | inr ((row, db₁), k) ↦
            let after : db'
                ≡ record db₁ { reservations = delete (of_line o t i.product_id) db₁.reservations } =
              ground arith in
            let (stock, kept) =
              taken-quantity t i.product_id i.quantity (fails (takes i.product_id)) db db₁ row k
                p in
            rw after (stock, ap (λ rs. delete (of_line o t i.product_id) rs) kept)
      ]

  items-steps :
      (i : OrderItem) (is : List OrderItem) (db db' : Db) (alerts : List Alert)
      → complete_items fails false o t (i ∷ is) db ≡ ok (alerts, db')
      → (a : List Alert) × (db₁ : Db) × (b : List Alert) × (complete_item fails false o t i db
          ≡ ok (a, db₁))
        × (complete_items fails false o t is db₁ ≡ ok (b, db'))
  unfolding complete_items
  items-steps i is db db' alerts h = elim (Result-cases (complete_item fails false o t i db)) [
    | inl (e, k) ↦ absurd (ground arith)
    | inr ((a, db₁), k) ↦ elim (Result-cases (complete_items fails false o t is db₁)) [
      | inl (e, l) ↦ absurd (ground arith)
      | inr ((b, db₂), l) ↦
          let same : db₂ ≡ db' = ground arith in (a, db₁, b, k, l ∙ ap (λ x. ok (b, x)) same)
    ]
  ]

  items-effect :
      (is : List OrderItem) (db db' : Db) (alerts : List Alert) (p : ℕ)
      → complete_items fails false o t is db ≡ ok (alerts, db')
      → (quantity_of db'.inventory t p +ℤ ordered p is ≡ quantity_of db.inventory t p)
        × (db'.reservations ≡ delete (of_lines o t is) db.reservations)
  unfolding complete_items ordered
  items-effect [] db db' alerts p h =
      let same : db ≡ db' = ground arith in
      rw (← same)
        (omega int_laws, sym (delete-none (of_lines o t []) db.reservations (λ r. ground arith)))
  items-effect (i ∷ is) db db' alerts p h =
      let (a, db₁, b, k, l) = items-steps i is db db' alerts h in
      let (stock, gone) = item-effect i db db₁ a p k in
      let (stocks, rest) = items-effect is db₁ db' b p l in
      (
        chained (quantity_of db'.inventory t p) (quantity_of db₁.inventory t p)
            (quantity_of db.inventory t p) (if i.product_id == p then i.quantity else pos 0)
            (ordered p is) stocks stock,
        rest
            ∙ ap (λ rs. delete (of_lines o t is) rs) gone
            ∙ delete-delete (of_line o t i.product_id) (of_lines o t is) (of_lines o t (i ∷ is))
                db.reservations (λ r. ground arith),
      )

-- Where the handling of a completed order succeeds and stock has no locations, the stock of every
-- product of its tenant is lowered by exactly what the order's lines ask of it, a missing row counting
-- as 0, and of the reservations exactly the order's own for the products of its lines are gone.
pub completed_settles :
    (fails : Site → Bool) (e : OrderCompletedEvent) (db : Db) (alerts : List Alert) (p : ℕ)
    → (handle_order_completed fails false e db).0 ≡ ok alerts
    → (quantity_of (handle_order_completed fails false e db).1.inventory e.tenant_id p
          +ℤ ordered p e.items
        ≡ quantity_of db.inventory e.tenant_id p)
      × ((handle_order_completed fails false e db).1.reservations
          ≡ delete (of_lines e.order_id e.tenant_id e.items) db.reservations)
unfolding handle_order_completed complete_order
completed_settles fails e db alerts p h =
    elim (Result-cases (complete_items fails false e.order_id e.tenant_id e.items db)) [
      | inl (x, k) ↦ absurd (ground arith)
      | inr ((a, db₁), k) ↦
          let same : (handle_order_completed fails false e db).1 ≡ db₁ = ground arith in
          rw same (items-effect fails e.order_id e.tenant_id e.items db db₁ a p k)
    ]
