-- ===== src/Inventory/Store.antt =====
-- The tables of services/inventory-service/migrations and the aggregates that the handlers select.
-- Quantities are PostgreSQL INTEGERs: a statement that would store a number out of range is refused.
use peanut_pos.Base.{
  ℕ, ◌≡◌, sym, ap, ◌∙◌, Bool, true, false, ◌&&◌, Option, none, some, List, [], ◌∷◌, ◌++◌, ◌==◌,
  same, if◌then◌else◌,
}
use peanut_pos.Base.Int.{ℤ, pos, ◌+ℤ◌, ltb_ℤ, leb_ℤ, i32_min, i32_max, int_laws, +ℤ_assoc}
use peanut_pos.Base.Table.{first}

-- The table inventory: one row for each tenant and product.
pub record Stock : Type 0 where
  pub tenant_id : ℕ
  pub product_id : ℕ
  pub quantity : ℤ
  pub threshold : ℤ

-- The table inventory_items: one row for each tenant, product and location.
pub record Item : Type 0 where
  pub tenant_id : ℕ
  pub product_id : ℕ
  pub location_id : ℕ
  pub quantity : ℤ
  pub threshold : ℤ

pub data Status : Type 0 where
  active released expired consumed : Status

abbrev pub is_active : Status → Bool
is_active active = true
is_active _ = false

-- The table inventory_reservations.
pub record Reservation : Type 0 where
  pub order_id : ℕ
  pub tenant_id : ℕ
  pub product_id : ℕ
  pub quantity : ℤ
  pub location_id : Option ℕ
  pub status : Status
  pub expires_at : Option ℕ

pub record Db : Type 0 where
  pub inventory : List Stock
  pub items : List Item
  pub reservations : List Reservation

-- DEFAULT_THRESHOLD of lib.rs.
abbrev pub default_threshold : ℤ
default_threshold = pos 5

abbrev pub stock_of : ℕ → ℕ → Stock → Bool
stock_of t p r = (r.tenant_id == t) && (r.product_id == p)

abbrev pub item_at : ℕ → ℕ → ℕ → Item → Bool
item_at t p l r = (r.tenant_id == t) && ((r.product_id == p) && (r.location_id == l))

abbrev pub held_for : ℕ → ℕ → Reservation → Bool
held_for t p r = (r.tenant_id == t) && (r.product_id == p)

abbrev pub held_at : ℕ → ℕ → ℕ → Reservation → Bool
held_at t p l r = held_for t p r && (same r.location_id (some l) && is_active r.status)

abbrev pub of_order : ℕ → ℕ → Reservation → Bool
of_order o t r = (r.order_id == o) && (r.tenant_id == t)

-- COALESCE(SUM(quantity), 0) over the rows of a WHERE clause.
unfoldable pub sum_reserved : (Reservation → Bool) → List Reservation → ℤ
sum_reserved p [] = pos 0
sum_reserved p (r ∷ rs) = (if p r then r.quantity else pos 0) +ℤ sum_reserved p rs

-- The quantity of a product's stock row, or 0 where there is none.
unfoldable pub quantity_of : List Stock → ℕ → ℕ → ℤ
unfolding first
quantity_of rows t p = elim (first (stock_of t p) rows) [ none ↦ pos 0 | some r ↦ r.quantity ]

unfoldable pub quantity_at : List Item → ℕ → ℕ → ℕ → ℤ
unfolding first
quantity_at rows t p l = elim (first (item_at t p l) rows) [ none ↦ pos 0 | some r ↦ r.quantity ]

-- Whether PostgreSQL can store a number in an INTEGER column.
abbrev pub in_range : ℤ → Bool
in_range q = leb_ℤ i32_min q && leb_ℤ q i32_max

-- crossed_below_threshold of lib.rs.
unfoldable pub crossed_below_threshold : ℤ → ℤ → ℤ → Bool
crossed_below_threshold prev new threshold = ltb_ℤ threshold prev && leb_ℤ new threshold

pub sum_reserved-append :
    (p : Reservation → Bool) (rs ss : List Reservation)
    → sum_reserved p (rs ++ ss) ≡ sum_reserved p rs +ℤ sum_reserved p ss
unfolding sum_reserved
sum_reserved-append p [] ss = omega int_laws
sum_reserved-append p (r ∷ rs) ss =
    ap (λ x. (if p r then r.quantity else pos 0) +ℤ x) (sum_reserved-append p rs ss)
    ∙ sym (+ℤ_assoc (if p r then r.quantity else pos 0) (sum_reserved p rs) (sum_reserved p ss))

pub sum_reserved-one :
    (p : Reservation → Bool) (r : Reservation)
    → sum_reserved p (r ∷ []) ≡ (if p r then r.quantity else pos 0)
unfolding sum_reserved
sum_reserved-one p r = omega int_laws
