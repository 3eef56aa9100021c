-- ===== src/Order/Refund/Lines.antt =====
-- The lines of a refund against the rows of the order.
use peanut_pos.Base.{
  ℕ, ◌≡◌, ◌≢◌, refl, sym, ap, subst, ◌∙◌, false, Bool-cases, inl, inr, ◌⊎◌, Option, some,
  Option-cases, List, [], ◌∷◌, ◌++◌, ◌==◌, ==_refl, arith, if◌then◌else◌,
}
use peanut_pos.Base.Int.{
  ℤ, pos, ◌+ℤ◌, ◌-ℤ◌, ◌*ℤ◌, ◌≤ℤ◌, wrap32, wrap32_id, int_laws, i32_max, +ℤ_assoc,
}
use peanut_pos.Base.Api.{Result, ok, err, ApiError}
use peanut_pos.Order.Tables.{OrderItem}
use peanut_pos.Order.Returnable.{
  DbItem, ItemsMap, Pending, PendingUpdate, RefundLine, insert, take_line, check_entry, check_line,
  check_lines,
}

-- No more is returned than was sold.
abbrev pub InBounds : OrderItem → Type 0
InBounds r =
    (pos 0 ≤ℤ r.returned_quantity) × (r.returned_quantity ≤ℤ r.quantity) × (r.quantity ≤ℤ i32_max)

-- What the updates add to the row of an identifier.
unfoldable pub sum_for : ℕ → List PendingUpdate → ℤ
sum_for id [] = pos 0
sum_for id (u ∷ us) = (if u.order_item_id == id then u.quantity else pos 0) +ℤ sum_for id us

pub sum_for-append :
    (id : ℕ) (us vs : List PendingUpdate) → sum_for id (us ++ vs) ≡ sum_for id us +ℤ sum_for id vs
unfolding sum_for
sum_for-append id [] vs = omega int_laws
sum_for-append id (u ∷ us) vs =
    ap (λ x. (if u.order_item_id == id then u.quantity else pos 0) +ℤ x) (sum_for-append id us vs)
    ∙ sym (
        +ℤ_assoc (if u.order_item_id == id then u.quantity else pos 0) (sum_for id us)
          (sum_for id vs))

-- What the map and the updates say of one row of the table, after a prefix of the requested lines.
pub record Tracks (r : OrderItem) (m : ItemsMap) (us : List PendingUpdate) : Type 0 where
  pub bounded :
      (p : ℕ) (e : DbItem)
      → m p ≡ some e
      → (pos 0 ≤ℤ e.returned_quantity)
        × (e.returned_quantity ≤ℤ e.quantity)
        × (e.quantity ≤ℤ i32_max)
  pub entry :
      (p : ℕ) (e : DbItem)
      → m p ≡ some e
      → e.order_item_id ≡ r.id
      → (r.product_id ≡ p)
        × (r.quantity ≡ e.quantity)
        × (r.returned_quantity +ℤ sum_for r.id us ≡ e.returned_quantity)
  pub untouched :
      ((e : DbItem) → m r.product_id ≡ some e → e.order_item_id ≢ r.id) → sum_for r.id us ≡ pos 0

-- What a checked line did.
pub record Taken (l : RefundLine) (s s' : Pending) : Type 0 where
  pub entry : DbItem
  pub found : s.lines l.product_id ≡ some entry
  pub positive : pos 1 ≤ℤ l.quantity
  pub enough : l.quantity ≤ℤ wrap32 (entry.quantity -ℤ entry.returned_quantity)
  pub result : s' ≡ take_line l entry s

check_line-Taken : (l : RefundLine) (s s' : Pending) → check_line l s ≡ ok s' → Taken l s s'
unfolding check_line check_entry
check_line-Taken l s s' h = elim (Option-cases (s.lines l.product_id)) [
  | inl e ↦ ground arith
  | inr (x, e) ↦ record {
    entry = x;
    found = e;
    positive = ground arith;
    enough = ground arith;
    result = ground arith;
  }
]

return_fits :
    (e : DbItem) (q : ℤ)
    → pos 0 ≤ℤ e.returned_quantity
    → e.returned_quantity ≤ℤ e.quantity
    → e.quantity ≤ℤ i32_max
    → pos 1 ≤ℤ q
    → q ≤ℤ wrap32 (e.quantity -ℤ e.returned_quantity)
    → (wrap32 (e.returned_quantity +ℤ q) ≡ e.returned_quantity +ℤ q)
      × (pos 0 ≤ℤ e.returned_quantity +ℤ q)
      × (e.returned_quantity +ℤ q ≤ℤ e.quantity)
return_fits e q lo le hi one enough =
    let exact : wrap32 (e.quantity -ℤ e.returned_quantity) ≡ e.quantity -ℤ e.returned_quantity =
      wrap32_id (e.quantity -ℤ e.returned_quantity) (omega int_laws) (omega int_laws) in
    let room : q ≤ℤ e.quantity -ℤ e.returned_quantity = rw exact at enough in
    (
      wrap32_id (e.returned_quantity +ℤ q) (omega int_laws) (omega int_laws),
      omega int_laws,
      omega int_laws,
    )

insert-same : (p : ℕ) (e : DbItem) (m : ItemsMap) → insert p e m p ≡ some e
insert-same p e m = rw (==_refl p) refl

insert-cases :
    (p q : ℕ) (e f : DbItem) (m : ItemsMap)
    → insert p e m q ≡ some f
    → ((q ≡ p) × (e ≡ f)) ⊎ ((q ≢ p) × (m q ≡ some f))
insert-cases p q e f m h = ground arith

pub same_entry :
    (o : Option DbItem) (e f : DbItem) → o ≡ some e → o ≡ some f → e.order_item_id ≡ f.order_item_id
same_entry o e f h k = ground arith

abbrev grown : RefundLine → DbItem → DbItem
grown l e = record e { returned_quantity = wrap32 (e.returned_quantity +ℤ l.quantity) }

add_zero : (a : ℤ) → a +ℤ pos 0 ≡ a
add_zero a = omega int_laws

module _ (r : OrderItem) (l : RefundLine) (s : Pending) (e : DbItem) where
  after_update :
      sum_for r.id (take_line l e s).updates
      ≡ sum_for r.id s.updates +ℤ (if e.order_item_id == r.id then l.quantity else pos 0)
  unfolding take_line sum_for
  after_update =
      sum_for-append r.id s.updates (
        record {
          order_item_id = e.order_item_id;
          product_id = l.product_id;
          quantity = l.quantity;
          line_total = e.unit_price *ℤ l.quantity;
        }
        ∷ [])
      ∙ ap (λ x. sum_for r.id s.updates +ℤ x)
          (add_zero (if e.order_item_id == r.id then l.quantity else pos 0))

  after_own :
      e.order_item_id ≡ r.id
      → sum_for r.id (take_line l e s).updates ≡ sum_for r.id s.updates +ℤ l.quantity
  after_own h = after_update ∙ rw (h, ==_refl r.id) refl

  after_other :
      e.order_item_id ≢ r.id → sum_for r.id (take_line l e s).updates ≡ sum_for r.id s.updates
  after_other h =
      let no : (e.order_item_id == r.id) ≡ false = ground arith in
      after_update ∙ rw no (add_zero (sum_for r.id s.updates))

  module _ (found : s.lines l.product_id ≡ some e) (one : pos 1 ≤ℤ l.quantity)
      (enough : l.quantity ≤ℤ wrap32 (e.quantity -ℤ e.returned_quantity))
      (t : Tracks r s.lines s.updates) where
    new_bounded :
        (pos 0 ≤ℤ (grown l e).returned_quantity)
        × ((grown l e).returned_quantity ≤ℤ e.quantity)
        × (e.quantity ≤ℤ i32_max)
    new_bounded =
        let (lo, le, hi) = t.bounded l.product_id e found in
        let (exact, lo', le') = return_fits e l.quantity lo le hi one enough in
        subst (λ z. (pos 0 ≤ℤ z) × (z ≤ℤ e.quantity) × (e.quantity ≤ℤ i32_max)) (sym exact)
          (lo', le', hi)

    new_entry :
        e.order_item_id ≡ r.id
        → (r.product_id ≡ l.product_id)
          × (r.quantity ≡ e.quantity)
          × (r.returned_quantity +ℤ sum_for r.id (take_line l e s).updates
              ≡ (grown l e).returned_quantity)
    new_entry h =
        let (lo, le, hi) = t.bounded l.product_id e found in
        let (exact, lo', le') = return_fits e l.quantity lo le hi one enough in
        let (product, quantity, sum) = t.entry l.product_id e found h in
        (
          product,
          quantity,
          ap (λ x. r.returned_quantity +ℤ x) (after_own h)
              ∙ sym (+ℤ_assoc r.returned_quantity (sum_for r.id s.updates) l.quantity)
              ∙ ap (λ x. x +ℤ l.quantity) sum
              ∙ sym exact,
        )

    old_entry :
        (p : ℕ) (f : DbItem)
        → p ≢ l.product_id
        → s.lines p ≡ some f
        → f.order_item_id ≡ r.id
        → (r.product_id ≡ p)
          × (r.quantity ≡ f.quantity)
          × (r.returned_quantity +ℤ sum_for r.id (take_line l e s).updates ≡ f.returned_quantity)
    old_entry p f ne old h =
        let (product, quantity, sum) = t.entry p f old h in
        let other : e.order_item_id ≢ r.id =
          λ own. ne (sym product ∙ (t.entry l.product_id e found own).0) in
        (product, quantity, ap (λ x. r.returned_quantity +ℤ x) (after_other other) ∙ sum)

    still_untouched :
        ((f : DbItem)
          → insert l.product_id (grown l e) s.lines r.product_id ≡ some f
          → f.order_item_id ≢ r.id)
        → sum_for r.id (take_line l e s).updates ≡ pos 0
    still_untouched none_such =
        let other : e.order_item_id ≢ r.id = λ own.
          none_such (grown l e)
            (subst (λ q. insert l.product_id (grown l e) s.lines q ≡ some (grown l e))
              (sym (t.entry l.product_id e found own).0)
              (insert-same l.product_id (grown l e) s.lines))
            own in
        after_other other
        ∙ t.untouched (λ f h. elim (Bool-cases (r.product_id == l.product_id)) [
          | inl q ↦
              let key : r.product_id ≡ l.product_id = ground arith in
              let old : s.lines l.product_id ≡ some f = subst (λ x. s.lines x ≡ some f) key h in
              λ own. other (same_entry (s.lines l.product_id) e f found old ∙ own)
          | inr q ↦ none_such f (rw q h)
        ])

    take_line-Tracks : Tracks r (take_line l e s).lines (take_line l e s).updates
    unfolding take_line
    take_line-Tracks = record {
      bounded = λ p f h. elim (insert-cases l.product_id p (grown l e) f s.lines h) [
        | inl (ep, ef) ↦
            subst
              (λ x.
                (pos 0 ≤ℤ x.returned_quantity)
                × (x.returned_quantity ≤ℤ x.quantity)
                × (x.quantity ≤ℤ i32_max))
              ef new_bounded
        | inr (ne, old) ↦ t.bounded p f old
      ];
      entry = λ p f h own. elim (insert-cases l.product_id p (grown l e) f s.lines h) [
        | inl (ep, ef) ↦
            let (product, quantity, sum) = new_entry (ap (λ x. x.order_item_id) ef ∙ own) in
            (
              product ∙ sym ep,
              quantity ∙ ap (λ x. x.quantity) ef,
              sum ∙ ap (λ x. x.returned_quantity) ef,
            )
        | inr (ne, old) ↦ old_entry p f ne old own
      ];
      untouched = still_untouched;
    }

check_lines-step :
    (l : RefundLine) (ls : List RefundLine) (s s' : Pending)
    → check_lines (l ∷ ls) s ≡ ok s'
    → (x : Pending) × (check_line l s ≡ ok x) × (check_lines ls x ≡ ok s')
unfolding check_lines
check_lines-step l ls s s' h = by_line (check_line l s) refl h
  where
    by_line :
        (o : Result ApiError Pending)
        → check_line l s ≡ o
        → elim o [ err e ↦ err e | ok x ↦ check_lines ls x ] ≡ ok s'
        → (x : Pending) × (check_line l s ≡ ok x) × (check_lines ls x ≡ ok s')
    by_line (err x) e k = ground arith
    by_line (ok x) e k = (x, e, k)

pub check_lines-Tracks :
    (r : OrderItem) (ls : List RefundLine) (s s' : Pending)
    → check_lines ls s ≡ ok s'
    → Tracks r s.lines s.updates
    → Tracks r s'.lines s'.updates
unfolding check_lines
check_lines-Tracks r [] s s' h t =
    let e : s ≡ s' = ground arith in subst (λ x. Tracks r x.lines x.updates) e t
check_lines-Tracks r (l ∷ ls) s s' h t =
    let (x, e, rest) = check_lines-step l ls s s' h in
    let taken = check_line-Taken l s x e in
    check_lines-Tracks r ls x s' rest (
      subst (λ y. Tracks r y.lines y.updates) (sym taken.result)
        (take_line-Tracks r l s taken.entry taken.found taken.positive taken.enough t))
