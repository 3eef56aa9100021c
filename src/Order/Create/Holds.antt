-- ===== src/Order/Create/Holds.antt =====
-- What the creation of an order leaves reserved at inventory-service.
use peanut_pos.Base.{
  ℕ, String, ◌≡◌, ◌≢◌, refl, sym, ap, ◌∙◌, Bool-cases, true, false, ◌&&◌, Option, none, some,
  Option-cases, [], ◌∷◌, ◌==◌, ==_refl, inl, inr, arith,
}
use peanut_pos.Base.Table.{delete}
use peanut_pos.Base.Api.{Result, ok, err, ApiError}
use peanut_pos.Order.Create.{
  Env, NewOrder, World, acquires, inserts_payment, releases, answered, is_success, is_paid,
  may_create, key_of, method_of, create_order, reserve_and_pay, pay_and_persist, payment_status,
  persist, release_inventory, reserve_inventory,
}

-- The failures after which the handler returns without a release, and a release that fails.
abbrev pub Compensated : Env → NewOrder → Type 0
Compensated env req =
    (env.fails acquires ≡ false)
    × ((is_paid req && env.fails inserts_payment) ≡ false)
    × (env.fails releases ≡ false)

release_undoes :
    (env : Env) (w w' : World)
    → env.fails releases ≡ false
    → delete (λ o. o == env.order_id) w.held ≡ w.held
    → reserve_inventory env w ≡ ok w'
    → release_inventory env w' ≡ w
unfolding reserve_inventory release_inventory delete
release_undoes env w w' f fresh h = elim (Bool-cases env.bypass) [
  | inl b ↦ ground arith
  | inr b ↦
      let held : w' ≡ record w { held = env.order_id ∷ w.held } = ground arith in
      rw (held, release_inventory, b, f, ==_refl env.order_id, fresh) refl
]

persist-undone :
    (env : Env) (req : NewOrder) (m st : String) (key : Option String) (w w' : World) (e : ApiError)
    → Compensated env req
    → release_inventory env w' ≡ w
    → (persist env req m st key w').0 ≡ err e
    → (persist env req m st key w').1 ≡ w
unfolding persist
persist-undone env req m st key w w' e (a, p, r) undo h = ground arith

reserve_and_pay-undone :
    (env : Env) (req : NewOrder) (m st : String) (key : Option String) (w : World) (e : ApiError)
    → Compensated env req
    → delete (λ o. o == env.order_id) w.held ≡ w.held
    → payment_status m req.payment req.total ≡ ok st
    → (reserve_and_pay env req m key w).0 ≡ err e
    → (reserve_and_pay env req m key w).1 ≡ w
unfolding reserve_and_pay pay_and_persist
reserve_and_pay-undone env req m st key w e c fresh paid h =
    by_reserve (reserve_inventory env w) refl
  where
    by_reserve :
        (r : Result ApiError World)
        → reserve_inventory env w ≡ r
        → (reserve_and_pay env req m key w).1 ≡ w
    by_reserve (err x) q = ground arith
    by_reserve (ok w') q =
        let (a, b, released) = c in
        let same : reserve_and_pay env req m key w ≡ persist env req m st key w' = ground arith in
        ap (λ x. x.1) same
        ∙ persist-undone env req m st key w w' e c (release_undoes env w w' released fresh q)
            (ap (λ x. x.0) (sym same) ∙ h)

module _ (trim to_lowercase : String → String) where
  -- Where the payment is acceptable, nothing fails but what the handler compensates, and the new
  -- order's identifier holds no reservation before, a creation that ends in an error leaves the orders,
  -- the payments and the reservations as they were.
  pub create_order_compensates :
      (env : Env) (req : NewOrder) (w : World) (e : ApiError) (st : String)
      → payment_status (method_of trim to_lowercase req) req.payment req.total ≡ ok st
      → Compensated env req
      → delete (λ o. o == env.order_id) w.held ≡ w.held
      → (create_order trim to_lowercase env req w).0 ≡ err e
      → (create_order trim to_lowercase env req w).1 ≡ w
  unfolding create_order
  create_order_compensates env req w e st paid c fresh h =
      elim (Option-cases (key_of trim to_lowercase req)) [
        | inl n ↦ ground (
          arith,
          reserve_and_pay-undone env req (method_of trim to_lowercase req) st none w e c fresh paid,
        )
        | inr (k, n) ↦ ground (
          arith,
          reserve_and_pay-undone env req (method_of trim to_lowercase req) st (some k) w e c fresh
              paid,
        )
      ]

  -- Where the payment is refused, because no amount is given, the cash is too little, the card's amount
  -- is another one or the method is unknown, the creation fails with that error after inventory-service
  -- has accepted the reservation, and the reservation stays although no order is stored.
  create_order_leaks :
      (env : Env) (req : NewOrder) (w : World) (code : ℕ) (e : ApiError)
      → may_create env.sec ≡ true
      → req.items ≢ []
      → key_of trim to_lowercase req ≡ none
      → env.bypass ≡ false
      → env.inventory ≡ answered code
      → is_success code ≡ true
      → payment_status (method_of trim to_lowercase req) req.payment req.total ≡ err e
      → create_order trim to_lowercase env req w
        ≡ (err e, record w { held = env.order_id ∷ w.held })
  unfolding create_order reserve_and_pay pay_and_persist reserve_inventory
  create_order_leaks env req w code e may items key bypass reply success refused = ground arith
