-- ===== src/Order/Create/Replay.antt =====
-- Replaying the creation of an order.
use text.Mathlib.TextEquality.{eq_iff}
use peanut_pos.Base.{
  ℕ, String, ◌≡◌, refl, sym, ap, subst, ◌≢◌, ◌∙◌, Bool, true, false, Option, none, some,
  Option-cases, List, [], ◌∷◌, ◌++◌, inl, inr, arith,
}
use peanut_pos.Base.Table.{first, first-append}
use peanut_pos.Base.Api.{Result, ok, err, ApiError, Result-cases}
use peanut_pos.Order.Tables.{Order}
use peanut_pos.Order.Create.{
  Env, NewOrder, World, looks_up, may_create, same_key, key_of, method_of, create_order,
  reserve_and_pay, pay_and_persist, payment_status, persist, new_row, reserve_inventory,
  release_inventory,
}

module _ (env : Env) (req : NewOrder) (m k : String) (w : World) (o : Order) where
  persist-stored :
      (st : String)
      → (persist env req m st (some k) w).0 ≡ ok o
      → ((persist env req m st (some k) w).1.orders ≡ w.orders ++ o ∷ [])
        × (same_key env.sec.tenant_id k o ≡ true)
  unfolding persist new_row
  persist-stored st h = ground (arith, (eq_iff k k).1 refl)

  pay-stored :
      (pay_and_persist env req m (some k) w).0 ≡ ok o
      → ((pay_and_persist env req m (some k) w).1.orders ≡ w.orders ++ o ∷ [])
        × (same_key env.sec.tenant_id k o ≡ true)
  unfolding pay_and_persist
  pay-stored h = by_status (payment_status m req.payment req.total) refl
    where
      by_status :
          (s : Result ApiError String)
          → payment_status m req.payment req.total ≡ s
          → ((pay_and_persist env req m (some k) w).1.orders ≡ w.orders ++ o ∷ [])
            × (same_key env.sec.tenant_id k o ≡ true)
      by_status (err x) e = ground arith
      by_status (ok st) e = rw (e, pay_and_persist) (persist-stored st (ground arith))

reserve-orders : (env : Env) (w w' : World) → reserve_inventory env w ≡ ok w' → w'.orders ≡ w.orders
unfolding reserve_inventory
reserve-orders env w w' h = ground arith

reserve-stored :
    (env : Env) (req : NewOrder) (m k : String) (w : World) (o : Order)
    → (reserve_and_pay env req m (some k) w).0 ≡ ok o
    → ((reserve_and_pay env req m (some k) w).1.orders ≡ w.orders ++ o ∷ [])
      × (same_key env.sec.tenant_id k o ≡ true)
unfolding reserve_and_pay
reserve-stored env req m k w o h = by_reserve (reserve_inventory env w) refl
  where
    by_reserve :
        (r : Result ApiError World)
        → reserve_inventory env w ≡ r
        → ((reserve_and_pay env req m (some k) w).1.orders ≡ w.orders ++ o ∷ [])
          × (same_key env.sec.tenant_id k o ≡ true)
    by_reserve (err x) e = ground arith
    by_reserve (ok w') e =
        let (rows, keyed) = pay-stored env req m k w' o (ground arith) in
        rw (e, reserve_and_pay) (rows ∙ ap (λ x. x ++ o ∷ []) (reserve-orders env w w' e), keyed)

module _ (env : Env) (req : NewOrder) (m : String) (k : Option String) (w : World) (o : Order)
    (p : Order → Bool) (found : first p w.orders ≡ some o) where
  persist-kept : (st : String) → first p (persist env req m st k w).1.orders ≡ some o
  unfolding persist release_inventory
  persist-kept st = ground (arith, first-append p w.orders (new_row env req m st k ∷ []))

  pay-kept : first p (pay_and_persist env req m k w).1.orders ≡ some o
  unfolding pay_and_persist
  pay-kept = elim (Result-cases (payment_status m req.payment req.total)) [
    | inl (x, e) ↦ rw (e, pay_and_persist) found
    | inr (st, e) ↦ rw (e, pay_and_persist) (persist-kept st)
  ]

reserve-kept :
    (env : Env) (req : NewOrder) (m : String) (k : Option String) (w : World) (o : Order)
    (p : Order → Bool)
    → first p w.orders ≡ some o
    → first p (reserve_and_pay env req m k w).1.orders ≡ some o
unfolding reserve_and_pay
reserve-kept env req m k w o p found = elim (Result-cases (reserve_inventory env w)) [
  | inl (x, e) ↦ rw (e, reserve_and_pay) found
  | inr (w', e) ↦
      rw (e, reserve_and_pay) (pay-kept env req m k w' o p (rw (reserve-orders env w w' e) found))
]

first-new :
    (t : ℕ) (k : String) (rows : List Order) (o : Order)
    → first (same_key t k) rows ≡ none
    → same_key t k o ≡ true
    → first (same_key t k) (rows ++ o ∷ []) ≡ some o
unfolding first
first-new t k rows o h e = first-append (same_key t k) rows (o ∷ []) ∙ rw (h, e) refl

module _ (trim to_lowercase : String → String) where
  -- A request whose key is stored.
  answers :
      (env : Env) (req : NewOrder) (w : World) (o : Order) (k : String)
      → key_of trim to_lowercase req ≡ some k
      → may_create env.sec ≡ true
      → req.items ≢ []
      → env.fails looks_up ≡ false
      → first (same_key env.sec.tenant_id k) w.orders ≡ some o
      → create_order trim to_lowercase env req w ≡ (ok o, w)
  unfolding create_order
  answers env req w o k key may items found stored = ground arith

  create_order-stored :
      (env : Env) (req : NewOrder) (w : World) (o : Order) (k : String)
      → key_of trim to_lowercase req ≡ some k
      → (create_order trim to_lowercase env req w).0 ≡ ok o
      → first (same_key env.sec.tenant_id k) (create_order trim to_lowercase env req w).1.orders
        ≡ some o
  unfolding create_order
  create_order-stored env req w o k key h =
      elim (Option-cases (first (same_key env.sec.tenant_id k) w.orders)) [
        | inl e ↦
            let m = method_of trim to_lowercase req in
            let same : create_order trim to_lowercase env req w
                ≡ reserve_and_pay env req m (some k) w =
              ground arith in
            let (rows, keyed) = reserve-stored env req m k w o (ap (λ x. x.0) (sym same) ∙ h) in
            rw (same, rows) (first-new env.sec.tenant_id k w.orders o e keyed)
        | inr (x, e) ↦ ground arith
      ]

  -- A creation leaves an order that a lookup finds.
  create_order-kept :
      (env : Env) (req : NewOrder) (w : World) (o : Order) (p : Order → Bool)
      → first p w.orders ≡ some o
      → first p (create_order trim to_lowercase env req w).1.orders ≡ some o
  unfolding create_order
  create_order-kept env req w o p found =
      let m = method_of trim to_lowercase req in
      elim (Option-cases (key_of trim to_lowercase req)) [
        | inl e ↦ ground (arith, reserve-kept env req m none w o p found)
        | inr (k, e) ↦ ground (arith, reserve-kept env req m (some k) w o p found)
      ]

  unfoldable pub create_all : List (Env × NewOrder) → World → World
  create_all [] w = w
  create_all ((env, req) ∷ rest) w = create_all rest (create_order trim to_lowercase env req w).1

  create_all-kept :
      (es : List (Env × NewOrder)) (w : World) (o : Order) (p : Order → Bool)
      → first p w.orders ≡ some o
      → first p (create_all es w).orders ≡ some o
  unfolding create_all
  create_all-kept [] w o p found = found
  create_all-kept ((env, req) ∷ es) w o p found =
      create_all-kept es (create_order trim to_lowercase env req w).1 o p
        (create_order-kept env req w o p found)

  -- An order created with an idempotency key is answered again, and nothing else happens, when after
  -- any further creations, by any callers and with any refusals, a request of the same tenant carries
  -- the same trimmed key, names an item and comes from a role that may create orders, if the lookup is
  -- not refused. What else the requests hold, and what inventory-service would answer, does not matter.
  pub create_order_replays :
      (env env' : Env) (req req' : NewOrder) (es : List (Env × NewOrder)) (w : World) (o : Order)
      (k : String)
      → key_of trim to_lowercase req ≡ some k
      → key_of trim to_lowercase req' ≡ some k
      → (create_order trim to_lowercase env req w).0 ≡ ok o
      → env'.sec.tenant_id ≡ env.sec.tenant_id
      → may_create env'.sec ≡ true
      → req'.items ≢ []
      → env'.fails looks_up ≡ false
      → create_order trim to_lowercase env' req'
          (create_all es (create_order trim to_lowercase env req w).1)
        ≡ (ok o, create_all es (create_order trim to_lowercase env req w).1)
  create_order_replays env env' req req' es w o k key key' h same may items found =
      let made = (create_order trim to_lowercase env req w).1 in
      let stored =
        create_all-kept es made o (same_key env.sec.tenant_id k)
          (create_order-stored env req w o k key h) in
      answers env' req' (create_all es made) o k key' may items found
        (subst (λ t. first (same_key t k) (create_all es made).orders ≡ some o) (sym same) stored)
