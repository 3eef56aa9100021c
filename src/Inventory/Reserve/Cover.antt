-- ===== src/Inventory/Reserve/Cover.antt =====
-- Without locations, what is reserved never exceeds what is in stock.
use peanut_pos.Base.{
  ℕ, ◌≡◌, inl, inr, Bool, Bool-cases, false, none, List, [], ◌∷◌, ◌++◌, arith, if◌then◌else◌,
}
use peanut_pos.Base.Int.{
  ℤ, pos, ◌+ℤ◌, ◌-ℤ◌, ◌≤ℤ◌, ◌<ℤ◌, ltb_ℤ, wrap32, wrap32_id, i32_max, int_laws, +ℤ_parts, -ℤ_parts,
}
use peanut_pos.Base.Lists.{All, All-append}
use peanut_pos.Base.Api.{Result, ok, err, ApiError}
use peanut_pos.Base.Tx.Keeps.{Keeps, Keeps-pure, Keeps-raise, keeps_rules, transaction_keeps}
use peanut_pos.Inventory.Store.{
  Db, Reservation, active, held_for, sum_reserved, sum_reserved-append, sum_reserved-one,
  quantity_of,
}
use peanut_pos.Inventory.Reserve.{
  Env, CreateRequest, ItemPayload, ReservationItem, Totals, reserve_legacy, reserve_one,
  reserve_all, reserve_order, reserve_checked, create_reservation, lift,
}

-- Every reservation is for a positive quantity, and for each tenant and product the sum of the
-- reservations is at most the stock, which is an INTEGER.
pub record Covered (db : Db) : Type 0 where
  pub positive : All (λ r. pos 0 <ℤ r.quantity) db.reservations
  pub within :
      (t p : ℕ) → sum_reserved (held_for t p) db.reservations ≤ℤ quantity_of db.inventory t p
  pub narrow : (t p : ℕ) → quantity_of db.inventory t p ≤ℤ i32_max

sum_reserved-nonneg :
    (p : Reservation → Bool) (rs : List Reservation)
    → All (λ r. pos 0 <ℤ r.quantity) rs
    → pos 0 ≤ℤ sum_reserved p rs
unfolding sum_reserved
sum_reserved-nonneg p [] h = omega arith
sum_reserved-nonneg p (r ∷ rs) (h, hs) = ground (
  arith,
  +ℤ_parts r.quantity (sum_reserved p rs),
  +ℤ_parts (pos 0) (sum_reserved p rs),
  sum_reserved-nonneg p rs,
)

abbrev row : Env → ℕ → ℕ → ℤ → Reservation
row env o p q = record {
  order_id = o;
  tenant_id = env.sec.tenant_id;
  product_id = p;
  quantity = q;
  location_id = none;
  status = active;
  expires_at = none;
}

module _ (env : Env) (o p : ℕ) (q : ℤ) (db db' : Db) (item : ReservationItem)
    (done : reserve_legacy env o p q db ≡ ok (item, db')) where
  reserved_row : db' ≡ record db { reservations = db.reservations ++ row env o p q ∷ [] }
  unfolding reserve_legacy
  reserved_row = ground arith

  reserved_positive : pos 0 <ℤ q
  unfolding reserve_legacy
  reserved_positive = ground arith

  reserved_available :
      ltb_ℤ
        (wrap32 (
          quantity_of db.inventory env.sec.tenant_id p
          -ℤ wrap32 (sum_reserved (held_for env.sec.tenant_id p) db.reservations)))
        q
      ≡ false
  unfolding reserve_legacy
  reserved_available = ground arith

-- Where stock covers what is reserved, the i32 arithmetic of the check is exact.
room :
    (cur res q : ℤ)
    → pos 0 ≤ℤ res
    → res ≤ℤ cur
    → cur ≤ℤ i32_max
    → ltb_ℤ (wrap32 (cur -ℤ wrap32 res)) q ≡ false
    → res +ℤ q ≤ℤ cur
room cur res q lo hi top h =
    let exact : wrap32 res ≡ res = wrap32_id res (omega arith) (omega arith) in
    let exact' : wrap32 (cur -ℤ res) ≡ cur -ℤ res =
      wrap32_id (cur -ℤ res) (omega int_laws) (omega int_laws) in
    let h' : ltb_ℤ (cur -ℤ res) q ≡ false = rw (exact, exact') at h in
    ground (arith, -ℤ_parts cur res, +ℤ_parts res q)

module _ (env : Env) (o p : ℕ) (q : ℤ) (db db' : Db) (item : ReservationItem)
    (done : reserve_legacy env o p q db ≡ ok (item, db')) (v : Covered db) where
  fits_own :
      sum_reserved (held_for env.sec.tenant_id p) db.reservations +ℤ q
      ≤ℤ quantity_of db.inventory env.sec.tenant_id p
  fits_own =
      room _ _ q (sum_reserved-nonneg _ db.reservations v.positive) (v.within env.sec.tenant_id p)
        (v.narrow env.sec.tenant_id p) (reserved_available env o p q db db' item done)

  -- Only the sum of the row's own tenant and product grows.
  fits :
      (t p' : ℕ)
      → sum_reserved (held_for t p') db.reservations
          +ℤ (if held_for t p' (row env o p q) then q else pos 0)
        ≤ℤ quantity_of db.inventory t p'
  fits t p' = elim (Bool-cases (held_for t p' (row env o p q))) [
    | inl e ↦
        let same_t : t ≡ env.sec.tenant_id = ground arith in
        let same_p : p' ≡ p = ground arith in rw e (rw (same_t, same_p) fits_own)
    | inr e ↦ rw e (omega (int_laws, v.within t p'))
  ]

  reserve_legacy-Covered : Covered db'
  reserve_legacy-Covered = rw (reserved_row env o p q db db' item done) (record {
    positive =
        All-append _ db.reservations _ v.positive
          (reserved_positive env o p q db db' item done, tt);
    within = λ t p'.
        rw
          (
            sum_reserved-append (held_for t p') db.reservations,
            sum_reserved-one (held_for t p') (row env o p q),
          )
          (fits t p');
    narrow = v.narrow;
  })

module _ (env : Env) (legacy : env.multi_location_enabled ≡ false) where
  reserve_one-Keeps :
      (o : ℕ) (items : List ItemPayload) (t : ℕ × ℤ) → Keeps Covered (reserve_one env o items t)
  unfolding reserve_one
  reserve_one-Keeps o items (p, q) = record {
    at = λ s s' a h v. reserve_legacy-Covered env o p q s s' a (ground arith) v;
  }

  reserve_all-Keeps :
      (o : ℕ) (items : List ItemPayload) (ts : Totals) → Keeps Covered (reserve_all env o items ts)
  unfolding reserve_all
  reserve_all-Keeps o items [] = search keeps_rules
  reserve_all-Keeps o items (t ∷ ts) =
      search (keeps_rules, reserve_one-Keeps o items t, reserve_all-Keeps o items ts)

  lift-Keeps : {A : Type 0} (r : Result ApiError A) → Keeps Covered (lift r)
  lift-Keeps (ok a) = Keeps-pure a
  lift-Keeps (err e) = Keeps-raise e

  reserve_order-Keeps : (req : CreateRequest) → Keeps Covered (reserve_order env req)
  unfolding reserve_order
  reserve_order-Keeps req = search (keeps_rules, lift-Keeps, reserve_all-Keeps) depth 14

  reserve_checked-Keeps : (req : CreateRequest) → Keeps Covered (reserve_checked env req)
  unfolding reserve_checked
  reserve_checked-Keeps req = search (keeps_rules, reserve_order-Keeps) depth 8

-- With locations disabled, `create_reservation` keeps the reservations of every tenant and product within
-- its stock, whatever the request, the caller, the order in which the HashMap is walked and the
-- statements that the database refuses, and whether it succeeds or not.
pub create_reservation-Covered :
    (env : Env) (req : CreateRequest) (db : Db)
    → env.multi_location_enabled ≡ false
    → Covered db
    → Covered (create_reservation env req db).1
unfolding create_reservation
create_reservation-Covered env req db legacy v =
    transaction_keeps (reserve_checked env req) db (reserve_checked-Keeps env legacy req) v
