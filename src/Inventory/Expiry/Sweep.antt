-- ===== src/Inventory/Expiry/Sweep.antt =====
-- What a sweep leaves, and what it does to availability.
use peanut_pos.Base.{ℕ, ◌≡◌, ◌≢◌, ◌∙◌, inl, inr, Bool-cases, ◌||◌, List, [], ◌∷◌, arith}
use peanut_pos.Base.Table.{select, update}
use peanut_pos.Base.Api.{ok, Result-cases}
use peanut_pos.Inventory.Store.{Db, Reservation}
use peanut_pos.Inventory.Expiry.{
  Env, is_due, expire, mark_due, restock_item, restock_stock, restock_row, restock_due,
  restock_marked, commit_sweep, begin, marks, commits, expire_reservations,
}

restock_row-reservations :
    (env : Env) (r : Reservation) (db db' : Db)
    → restock_row env r db ≡ ok (tt, db')
    → db'.reservations ≡ db.reservations
unfolding restock_row restock_item restock_stock
restock_row-reservations env r db db' h = ground arith

pub restock_due-steps :
    (env : Env) (r : Reservation) (rs : List Reservation) (db db' : Db)
    → restock_due env (r ∷ rs) db ≡ ok (tt, db')
    → (db₁ : Db) × (restock_row env r db ≡ ok (tt, db₁)) × (restock_due env rs db₁ ≡ ok (tt, db'))
unfolding restock_due
restock_due-steps env r rs db db' h = elim (Result-cases (restock_row env r db)) [
  | inl (e, k) ↦ absurd (ground arith)
  | inr ((u, db₁), k) ↦ (db₁, k, ground arith)
]

restock_due-reservations :
    (env : Env) (rs : List Reservation) (db db' : Db)
    → restock_due env rs db ≡ ok (tt, db')
    → db'.reservations ≡ db.reservations
unfolding restock_due
restock_due-reservations env [] db db' h = ground arith
restock_due-reservations env (r ∷ rs) db db' h =
    let (db₁, k, l) = restock_due-steps env r rs db db' h in
    restock_due-reservations env rs db₁ db' l ∙ restock_row-reservations env r db db₁ k

abbrev pub marked : ℕ → Db → Db
marked now db = record db { reservations = update (is_due now) expire db.reservations }

-- The steps of a sweep that changes the tables.
pub sweep-steps :
    (env : Env) (db : Db)
    → (expire_reservations env db).1 ≢ db
    → restock_due env (select (is_due env.now) db.reservations) (marked env.now db)
      ≡ ok (tt, (expire_reservations env db).1)
unfolding expire_reservations restock_marked commit_sweep mark_due
sweep-steps env db h =
    elim (Result-cases
      (restock_due env (select (is_due env.now) db.reservations) (marked env.now db))) [
        | inl (e, k) ↦ absurd (h (ground arith))
        | inr ((u, db'), k) ↦
            elim (Bool-cases (env.fails begin || env.fails marks || env.fails commits)) [
              | inl b ↦ absurd (h (ground arith))
              | inr b ↦ ground arith
            ]
      ]

pub swept-reservations :
    (env : Env) (db : Db)
    → (expire_reservations env db).1 ≢ db
    → (expire_reservations env db).1.reservations ≡ update (is_due env.now) expire db.reservations
swept-reservations env db h =
    restock_due-reservations env (select (is_due env.now) db.reservations) (marked env.now db)
      (expire_reservations env db).1 (sweep-steps env db h)
