-- ===== src/Order/Refund/Sold.antt =====
-- A refund against the table of sold lines.
use peanut_pos.Base.{
  ℕ, ◌≡◌, ◌≢◌, refl, sym, ap, subst, ◌∙◌, Bool, Bool-cases, inl, inr, Option, none, some, List, [],
  ◌∷◌, map, ◌==◌, arith, if◌then◌else◌,
}
use peanut_pos.Base.Int.{ℤ, pos, ◌+ℤ◌, ◌≤ℤ◌, int_laws, i32_max}
use peanut_pos.Base.Lists.{All}
use peanut_pos.Base.Table.{select}
use peanut_pos.Base.Api.{ok}
use peanut_pos.Order.Tables.{Db, OrderItem, of_order}
use peanut_pos.Order.Refund.{no_pending, returned_more}
use peanut_pos.Order.Returnable.{
  RefundLine, DbItem, ItemsMap, Pending, PendingUpdate, entry_of, insert, items_map, check_lines,
}
use peanut_pos.Order.Refund.Lines.{InBounds, Tracks, sum_for, check_lines-Tracks, same_entry}

-- `id` is the primary key of the table.
abbrev pub Keyed : List OrderItem → Type 0
Keyed rows = All (λ r. All (λ s. s.id ≡ r.id → s ≡ r) rows) rows

-- Every line has returned at least nothing and at most what was sold.
abbrev pub WellFormed : Db → Type 0
WellFormed db = All InBounds db.items × Keyed db.items

module _ (Q : ℕ → DbItem → Type 0) where
  items_map_all :
      (rs : List OrderItem) (m : ItemsMap)
      → ((p : ℕ) (e : DbItem) → m p ≡ some e → Q p e)
      → All (λ s. Q s.product_id (entry_of s)) rs
      → (p : ℕ) (e : DbItem) → items_map rs m p ≡ some e
      → Q p e
  unfolding items_map
  items_map_all [] m base hs = base
  items_map_all (r ∷ rs) m base (h, hs) =
      items_map_all rs (insert r.product_id (entry_of r) m) step hs
    where
      step : (p : ℕ) (e : DbItem) → insert r.product_id (entry_of r) m p ≡ some e → Q p e
      step p e k = elim (Bool-cases (p == r.product_id)) [
        | inl q ↦
            let key : r.product_id ≡ p = ground arith in
            let same : entry_of r ≡ e = ground arith in
            subst (λ x. Q x e) key (subst (λ x. Q r.product_id x) same h)
        | inr q ↦ base p e (ground arith)
      ]

All-select :
    (P : OrderItem → Type 0) (q : OrderItem → Bool) (rs : List OrderItem)
    → All P rs
    → All P (select q rs)
unfolding select
All-select P q [] hs = tt
All-select P q (r ∷ rs) (h, hs) = elim (Bool-cases (q r)) [
  | inl e ↦
      subst (λ b. All P (if b then r ∷ select q rs else select q rs)) (sym e)
        (h, All-select P q rs hs)
  | inr e ↦
      subst (λ b. All P (if b then r ∷ select q rs else select q rs)) (sym e) (All-select P q rs hs)
]

zip-All :
    (P Q R : OrderItem → Type 0) (rs : List OrderItem)
    → ((r : OrderItem) → P r → Q r → R r)
    → All P rs
    → All Q rs
    → All R rs
zip-All P Q R [] f hs ks = tt
zip-All P Q R (r ∷ rs) f (h, hs) (k, ks) = (f r h k, zip-All P Q R rs f hs ks)

All-map :
    (P : OrderItem → Type 0) (g : OrderItem → OrderItem) (rs : List OrderItem)
    → All (λ r. P (g r)) rs
    → All P (map g rs)
All-map P g [] hs = tt
All-map P g (r ∷ rs) (h, hs) = (h, All-map P g rs hs)

-- What the start of the loop says of an entry, for one row of the table.
abbrev Started : OrderItem → ℕ → DbItem → Type 0
Started r p e =
    ((pos 0 ≤ℤ e.returned_quantity) × (e.returned_quantity ≤ℤ e.quantity) × (e.quantity ≤ℤ i32_max))
    × (e.order_item_id ≡ r.id
        → (r.product_id ≡ p)
          × (r.quantity ≡ e.quantity)
          × (r.returned_quantity +ℤ pos 0 ≡ e.returned_quantity))

add_zero : (a : ℤ) → a +ℤ pos 0 ≡ a
add_zero a = omega int_laws

row-Started :
    (r s : OrderItem) → InBounds s → (s.id ≡ r.id → s ≡ r) → Started r s.product_id (entry_of s)
row-Started r s b k = (
  b,
  λ e.
      let q = k e in
      (
        sym (ap (λ x. x.product_id) q),
        sym (ap (λ x. x.quantity) q),
        add_zero r.returned_quantity ∙ sym (ap (λ x. x.returned_quantity) q),
      ),
)

-- At the start of the loop: the map holds rows of the order and nothing is updated.
start-Tracks :
    (r : OrderItem) (o : ℕ) (rows : List OrderItem)
    → All InBounds rows
    → All (λ s. s.id ≡ r.id → s ≡ r) rows
    → Tracks r (items_map (select (of_order o) rows) (λ p. none)) []
unfolding sum_for
start-Tracks r o rows bs ks =
    let started =
      items_map_all (Started r) (select (of_order o) rows) (λ p. none) (λ p e h. ground arith)
        (All-select (λ s. Started r s.product_id (entry_of s)) (of_order o) rows
          (zip-All InBounds (λ s. s.id ≡ r.id → s ≡ r) (λ s. Started r s.product_id (entry_of s))
            rows (row-Started r) bs ks)) in
    record {
      bounded = λ p e h. (started p e h).0;
      entry = λ p e h. (started p e h).1;
      untouched = λ h. refl;
    }

-- What the updates make of a row.
abbrev pub grown : List PendingUpdate → OrderItem → OrderItem
grown us r = returned_more (sum_for r.id us) r

grown-InBounds :
    (r : OrderItem) (m : ItemsMap) (us : List PendingUpdate)
    → Tracks r m us
    → InBounds r
    → InBounds (grown us r)
grown-InBounds r m us t b = by_entry (m r.product_id) refl
  where
    unmoved : sum_for r.id us ≡ pos 0 → InBounds (grown us r)
    unmoved e =
        subst (λ x. InBounds (record r { returned_quantity = x }))
          (sym (ap (λ x. r.returned_quantity +ℤ x) e ∙ add_zero r.returned_quantity)) b

    by_entry : (o : Option DbItem) → m r.product_id ≡ o → InBounds (grown us r)
    by_entry none h = unmoved (t.untouched λ e k. ground arith)
    by_entry (some e) h = elim (Bool-cases (e.order_item_id == r.id)) [
      | inl q ↦
          let own : e.order_item_id ≡ r.id = ground arith in
          let (product, quantity, sum) = t.entry r.product_id e h own in
          let (lo, le, hi) = t.bounded r.product_id e h in
          (rw sum lo, rw (sum, quantity) le, rw quantity hi)
      | inr q ↦
          let other : e.order_item_id ≢ r.id = ground arith in
          unmoved (t.untouched λ f k. λ own. other (same_entry (m r.product_id) e f h k ∙ own))
    ]

-- The updates of a refund whose lines pass the checks keep every line of the table within bounds.
pub checked-InBounds :
    (o : ℕ) (ls : List RefundLine) (rows : List OrderItem) (s : Pending)
    → All InBounds rows
    → Keyed rows
    → check_lines ls (no_pending (items_map (select (of_order o) rows) λ p. none)) ≡ ok s
    → All InBounds (map (grown s.updates) rows)
checked-InBounds o ls rows s bs ks h = All-map InBounds (grown s.updates) rows (
    zip-All InBounds (λ r. All (λ s. s.id ≡ r.id → s ≡ r) rows) (λ r. InBounds (grown s.updates r))
      rows
      (λ r b k.
        grown-InBounds r s.lines s.updates
          (check_lines-Tracks r ls (no_pending (items_map (select (of_order o) rows) λ p. none)) s h
            (start-Tracks r o rows bs k))
          b)
      bs ks)

pub grown-Keyed :
    (us : List PendingUpdate) (rows : List OrderItem) → Keyed rows → Keyed (map (grown us) rows)
grown-Keyed us rows ks =
    All-map (λ r. All (λ s. s.id ≡ r.id → s ≡ r) (map (grown us) rows)) (grown us) rows
      (zip-All (λ r. All (λ s. s.id ≡ r.id → s ≡ r) rows) (λ r. All (λ s. s.id ≡ r.id → s ≡ r) rows)
        (λ r. All (λ s. s.id ≡ r.id → s ≡ grown us r) (map (grown us) rows)) rows
        (λ r k k'.
          All-map (λ s. s.id ≡ r.id → s ≡ grown us r) (grown us) rows
            (zip-All (λ s. s.id ≡ r.id → s ≡ r) (λ s. s.id ≡ r.id → s ≡ r)
              (λ s. s.id ≡ r.id → grown us s ≡ grown us r) rows (λ s e e' i. ap (grown us) (e i)) k
              k))
        ks ks)
