-- ===== src/Order/Payments/Settled.antt =====
-- What payment events do to orders that are settled, and what they tell of them.
use text.Mathlib.Text.{◌==◌ as str_eq}
use text.Mathlib.TextEquality.{eq_iff}
use peanut_pos.Base.{
  ℕ, String, ◌≡◌, ◌≢◌, refl, sym, ap, ◌∙◌, false, Bool-cases, Option-cases, inl, inr, Option, none,
  some, List, [], ◌∷◌, if◌then◌else◌, arith,
}
use peanut_pos.Base.Lists.{any}
use peanut_pos.Base.Table.{first, select, update}
use peanut_pos.Order.Tables.{Order, is_order, of_order}
use peanut_pos.Order.Outbox.{OrderEvent}
use peanut_pos.Order.Payments.{
  Env, World, PaymentCompletedEvent, PaymentFailedEvent, Message, completed, failed, is_pending,
  with_status, emit, tell, snapshot, payment_completed, payment_failed, consume, consume_all,
  updates, loads_order, loads_items,
}

emit-orders :
    (env : Env) (topic : String) (e : OrderEvent) (w : World)
    → (emit env topic e w).orders ≡ w.orders
unfolding emit
emit-orders env topic e w = ground arith

tell-orders :
    (env : Env) (topic : String) (id t : ℕ) (reason : Option String) (w : World)
    → (tell env topic id t reason w).orders ≡ w.orders
unfolding tell
tell-orders env topic id t reason w = elim (Option-cases (first (is_order id t) w.orders)) [
  | inl n ↦ rw n (ground arith)
  | inr (r, s) ↦
      rw s
        (ground (arith, emit-orders env topic (snapshot r (select (of_order id) w.items) reason) w))
]

pending_missed :
    (id t : ℕ) (s : String) (r : Order)
    → r.status ≢ "PENDING"
    → (if is_pending id t r then with_status s r else r) ≡ r
pending_missed id t s r settled = elim (Bool-cases (str_eq r.status "PENDING")) [
  | inl e ↦ absurd (settled ((eq_iff r.status "PENDING").0 e))
  | inr e ↦ rw e (ground arith)
]

-- An order that is not pending is found as it was after the status of pending ones is set.
settled_stays :
    (id t id' t' : ℕ) (s : String) (rows : List Order) (r : Order)
    → first (is_order id' t') rows ≡ some r
    → r.status ≢ "PENDING"
    → first (is_order id' t') (update (is_pending id t) (with_status s) rows) ≡ some r
unfolding first update
settled_stays id t id' t' s [] r found settled = ground arith
settled_stays id t id' t' s (x ∷ rows) r found settled = elim (Bool-cases (is_order id' t' x)) [
  | inl e ↦
      let same : x ≡ r = ground arith in
      let kept : (if is_pending id t x then with_status s x else x) ≡ x =
        pending_missed id t s x (λ p. settled (ap (λ (o : Order). o.status) (sym same) ∙ p)) in
      rw (kept, e) (ap some same)
  | inr e ↦ elim (Bool-cases (is_pending id t x)) [
    | inl p ↦ rw (p, e) (settled_stays id t id' t' s rows r (ground arith) settled)
    | inr p ↦ rw (p, e) (settled_stays id t id' t' s rows r (ground arith) settled)
  ]
]

completed_keeps :
    (env : Env) (e : PaymentCompletedEvent) (w : World) (id t : ℕ) (r : Order)
    → first (is_order id t) w.orders ≡ some r
    → r.status ≢ "PENDING"
    → first (is_order id t) (payment_completed env e w).orders ≡ some r
unfolding payment_completed
completed_keeps env e w id t r found settled =
    ap (first (is_order id t)) (tell-orders env "order.completed" e.order_id e.tenant_id none _)
    ∙ elim (Bool-cases (env.fails updates)) [
      | inl f ↦ rw f found
      | inr f ↦
          rw f (settled_stays e.order_id e.tenant_id id t "COMPLETED" w.orders r found settled)
    ]

failed_keeps :
    (env : Env) (e : PaymentFailedEvent) (w : World) (id t : ℕ) (r : Order)
    → first (is_order id t) w.orders ≡ some r
    → r.status ≢ "PENDING"
    → first (is_order id t) (payment_failed env e w).orders ≡ some r
unfolding payment_failed
failed_keeps env e w id t r found settled = elim (Bool-cases (env.fails updates)) [
  | inl f ↦ rw f found
  | inr f ↦ elim (Bool-cases (any (is_pending e.order_id e.tenant_id) w.orders)) [
    | inl a ↦
        rw (f, a)
          (ap (first (is_order id t)) (tell-orders env "order.voided" e.order_id e.tenant_id _ _)
            ∙ settled_stays e.order_id e.tenant_id id t "NOT_ACCEPTED" w.orders r found settled)
    | inr a ↦ rw (f, a) found
  ]
]

-- Over any payment events, in any order and with any refusals, an order that is found and is not
-- pending is found as it was.
pub consume_all-settled :
    (ms : List (Env × Message)) (w : World) (id t : ℕ) (r : Order)
    → first (is_order id t) w.orders ≡ some r
    → r.status ≢ "PENDING"
    → first (is_order id t) (consume_all ms w).orders ≡ some r
unfolding consume_all consume
consume_all-settled [] w id t r found settled = found
consume_all-settled ((env, completed e) ∷ ms) w id t r found settled =
    consume_all-settled ms (payment_completed env e w) id t r
      (completed_keeps env e w id t r found settled) settled
consume_all-settled ((env, failed e) ∷ ms) w id t r found settled =
    consume_all-settled ms (payment_failed env e w) id t r
      (failed_keeps env e w id t r found settled) settled

none_left :
    (id t : ℕ) (rows : List Order)
    → any (is_pending id t) (update (is_pending id t) (with_status "NOT_ACCEPTED") rows) ≡ false
unfolding update
none_left id t [] = refl
none_left id t (r ∷ rows) = elim (Bool-cases (is_pending id t r)) [
  | inl e ↦ rw (e, none_left id t rows) (ground arith)
  | inr e ↦ rw e (ground (arith, none_left id t rows))
]

nothing_pending :
    (env : Env) (e : PaymentFailedEvent) (w : World)
    → any (is_pending e.order_id e.tenant_id) w.orders ≡ false
    → payment_failed env e w ≡ w
unfolding payment_failed
nothing_pending env e w h = elim (Bool-cases (env.fails updates)) [
  | inl f ↦ rw f refl
  | inr f ↦ rw (f, h) refl
]

failed_leaves :
    (env : Env) (e : PaymentFailedEvent) (w : World)
    → env.fails updates ≡ false
    → any (is_pending e.order_id e.tenant_id) (payment_failed env e w).orders ≡ false
unfolding payment_failed
failed_leaves env e w taken = elim (Bool-cases (any (is_pending e.order_id e.tenant_id) w.orders)) [
  | inl a ↦
      rw (taken, a)
        (ap (any (is_pending e.order_id e.tenant_id))
            (tell-orders env "order.voided" e.order_id e.tenant_id _ _)
          ∙ none_left e.order_id e.tenant_id w.orders)
  | inr a ↦ rw (taken, a) a
]

-- A payment.failed that is delivered again changes nothing: where the update of the first delivery was
-- taken, the second leaves the orders, the outbox and the broker as the first left them.
pub payment_failed_once :
    (env env' : Env) (e : PaymentFailedEvent) (w : World)
    → env.fails updates ≡ false
    → payment_failed env' e (payment_failed env e w) ≡ payment_failed env e w
payment_failed_once env env' e w taken =
    nothing_pending env' e (payment_failed env e w) (failed_leaves env e w taken)

update_none :
    (id t : ℕ) (s : String) (rows : List Order)
    → any (is_pending id t) rows ≡ false
    → update (is_pending id t) (with_status s) rows ≡ rows
unfolding update
update_none id t s [] h = refl
update_none id t s (r ∷ rows) h = ground (arith, update_none id t s rows)

told :
    (env : Env) (topic : String) (id t : ℕ) (reason : Option String) (w : World) (r : Order)
    → env.fails loads_order ≡ false
    → env.fails loads_items ≡ false
    → first (is_order id t) w.orders ≡ some r
    → tell env topic id t reason w
      ≡ emit env topic (snapshot r (select (of_order id) w.items) reason) w
unfolding tell
told env topic id t reason w r a b found = rw (a, found, b) refl

-- A payment.completed is told for an order of any status: where the reads succeed and no row of the
-- order is pending, such as one that is voided or one told before, the orders are left as they are
-- and order.completed is sent for it again.
completed_told_again :
    (env : Env) (e : PaymentCompletedEvent) (w : World) (r : Order)
    → env.fails loads_order ≡ false
    → env.fails loads_items ≡ false
    → any (is_pending e.order_id e.tenant_id) w.orders ≡ false
    → first (is_order e.order_id e.tenant_id) w.orders ≡ some r
    → payment_completed env e w
      ≡ emit env "order.completed" (snapshot r (select (of_order e.order_id) w.items) none) w
unfolding payment_completed
completed_told_again env e w r a b settled found =
    ap (tell env "order.completed" e.order_id e.tenant_id none) same
    ∙ told env "order.completed" e.order_id e.tenant_id none w r a b found
  where
    same :
        (if env.fails updates then w else record w {
          orders = update (is_pending e.order_id e.tenant_id) (with_status "COMPLETED") w.orders;
        })
        ≡ w
    same = elim (Bool-cases (env.fails updates)) [
      | inl f ↦ rw f refl
      | inr f ↦ rw (f, update_none e.order_id e.tenant_id "COMPLETED" w.orders settled) refl
    ]
