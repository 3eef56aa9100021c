-- ===== src/Order/Void/Guard.antt =====
-- The guard of a void against writes in between.
use text.Mathlib.Text.{◌==◌ as str_eq}
use text.Mathlib.TextEquality.{eq_iff}
use peanut_pos.Base.{
  ℕ, String, ◌≡◌, refl, sym, ap, subst, ◌∙◌, Option, Option-cases, none, some, inl, inr, List, [],
  ◌∷◌, map, ◌&&◌, ◌==◌, ==_iff, if◌then◌else◌, arith,
}
use peanut_pos.Base.Table.{first, update, first-holds}
use peanut_pos.Base.Api.{ok}
use peanut_pos.Order.Tables.{Db, Order, is_order}
use peanut_pos.Order.Void.{Env, is_pending, voided, write_void, void_found, void_order}

abbrev pub void_row : ℕ → ℕ → Order → Order
void_row id t r =
    if (r.id == id) && ((r.tenant_id == t) && str_eq r.status "PENDING")
    then record r { status = "VOIDED" }
    else r

-- What a successful void did: at the update the order was still pending, and of the rows only the
-- pending ones with that id and tenant were changed, in their status.
pub record Voided (env : Env) (id : ℕ) (db db' : Db) (o : Order) : Type 0 where
  pub row : Order
  pub present :
      first
        (λ r. (r.id == id) && ((r.tenant_id == env.sec.tenant_id) && str_eq r.status "PENDING"))
        (env.meanwhile db).orders
      ≡ some row
  pub of_id : row.id ≡ id
  pub of_tenant : row.tenant_id ≡ env.sec.tenant_id
  pub pending : row.status ≡ "PENDING"
  pub answer : o ≡ record row { status = "VOIDED" }
  pub stored : db' ≡ record (env.meanwhile db) {
    orders = map (void_row id env.sec.tenant_id) (env.meanwhile db).orders;
  }

update-void_row :
    (id t : ℕ) (rs : List Order) → update (is_pending id t) voided rs ≡ map (void_row id t) rs
unfolding update
update-void_row id t [] = refl
update-void_row id t (r ∷ rs) = ground (arith, update-void_row id t rs)

found_spelled :
    (id t : ℕ) (rs : List Order)
    → first (λ r. (r.id == id) && ((r.tenant_id == t) && str_eq r.status "PENDING")) rs
      ≡ first (is_pending id t) rs
unfolding first
found_spelled id t [] = refl
found_spelled id t (r ∷ rs) = ground (arith, found_spelled id t rs)

write_void-Voided :
    (env : Env) (id : ℕ) (db : Db) (o : Order)
    → (write_void env id (env.meanwhile db)).0 ≡ ok o
    → Voided env id db (write_void env id (env.meanwhile db)).1 o
unfolding write_void
write_void-Voided env id db o h =
    let t = env.sec.tenant_id in
    let rows = (env.meanwhile db).orders in
    elim (Option-cases (first (is_pending id t) rows)) [
      | inl e ↦ ground arith
      | inr (r, e) ↦
          let kept = first-holds (is_pending id t) rows r e in
          record {
            row = r;
            present = found_spelled id t rows ∙ e;
            of_id = (==_iff r.id id).0 (ground arith);
            of_tenant = (==_iff r.tenant_id t).0 (ground arith);
            pending = ground (arith, eq_iff r.status "PENDING");
            answer = ground arith;
            stored = ground (arith, update-void_row id t rows);
          }
    ]

-- Whatever other requests write between the read and the update, a void that answers with an order has
-- found an order of that id and tenant pending at the update, answers it voided, and changes the status
-- of pending orders of that id and tenant only.
pub void_order-Voided :
    (to_ascii_lowercase : String → String) (env : Env) (id : ℕ) (db : Db) (o : Order)
    → (void_order to_ascii_lowercase env id db).0 ≡ ok o
    → Voided env id db (void_order to_ascii_lowercase env id db).1 o
unfolding void_order void_found
void_order-Voided to_ascii_lowercase env id db o h =
    let same : void_order to_ascii_lowercase env id db ≡ write_void env id (env.meanwhile db) =
      by_row (first (is_order id env.sec.tenant_id) db.orders) refl in
    subst (λ x. Voided env id db x.1 o) (sym same)
      (write_void-Voided env id db o (ap (λ x. x.0) (sym same) ∙ h))
  where
    by_row :
        (r : Option Order)
        → first (is_order id env.sec.tenant_id) db.orders ≡ r
        → void_order to_ascii_lowercase env id db ≡ write_void env id (env.meanwhile db)
    by_row none e = ground arith
    by_row (some r) e = ground arith
