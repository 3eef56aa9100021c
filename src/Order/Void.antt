-- ===== src/Order/Void.antt =====
-- services/order-service/src/order_handlers.rs: `void_order` and `notify_payment_void`. Other requests
-- may write between the read of the order and its update: `meanwhile` is what they do.
pub mod Guard
use text.Mathlib.Text.{◌==◌ as str_eq}
use peanut_pos.Base.{ℕ, String, Bool, true, not, ◌&&◌, ◌||◌, Option, none, some, if◌then◌else◌}
use peanut_pos.Base.Lists.{any}
use peanut_pos.Base.Table.{first, update}
use peanut_pos.Base.Api.{
  ApiError, forbidden_missing_role, bad_request, not_found, internal, Result, ok, err,
}
use peanut_pos.Security.Role.{SecurityContext, admin, manager, role_eq}
use peanut_pos.Order.Tables.{Db, Order, is_order}

pub record Env : Type 0 where
  pub sec : SecurityContext
  pub gateway_voids : Bool
  pub meanwhile : Db → Db
  pub read_fails : Bool
  pub update_fails : Bool

-- Only card and crypto payments are announced to the gateway.
unfoldable pub notify_payment_void : (String → String) → Env → String → Bool
notify_payment_void to_ascii_lowercase env method =
    if str_eq (to_ascii_lowercase method) "card" || str_eq (to_ascii_lowercase method) "crypto"
    then env.gateway_voids
    else true

abbrev pub is_pending : ℕ → ℕ → Order → Bool
is_pending id t r = is_order id t r && str_eq r.status "PENDING"

abbrev pub voided : Order → Order
voided r = record r { status = "VOIDED" }

-- UPDATE ... SET status = 'VOIDED' WHERE id = $1 AND tenant_id = $2 AND status = 'PENDING' RETURNING.
unfoldable pub write_void : Env → ℕ → Db → Result ApiError Order × Db
unfolding first update
write_void env id db =
    if env.update_fails
    then (err internal, db)
    else elim (first (is_pending id env.sec.tenant_id) db.orders) [
      | none ↦ (err (bad_request "status_changed"), db)
      | some r ↦ (
        ok (voided r),
        record db { orders = update (is_pending id env.sec.tenant_id) voided db.orders },
      )
    ]

unfoldable pub void_found :
    (String → String) → Env → ℕ → Option Order → Db → Result ApiError Order × Db
unfolding notify_payment_void write_void
void_found to_ascii_lowercase env id none db = (err (not_found "order_not_found"), db)
void_found to_ascii_lowercase env id (some r) db =
    if not (str_eq r.status "PENDING")
    then (err (bad_request "invalid_status"), db)
    else if not (notify_payment_void to_ascii_lowercase env r.payment_method)
    then (err (bad_request "upstream_error"), db)
    else write_void env id (env.meanwhile db)

unfoldable pub void_order : (String → String) → Env → ℕ → Db → Result ApiError Order × Db
unfolding role_eq first void_found
void_order to_ascii_lowercase env id db =
    if not (any (λ r. role_eq r admin || role_eq r manager) env.sec.roles)
    then (err (forbidden_missing_role "admin_or_manager"), db)
    else if env.read_fails
    then (err internal, db)
    else void_found to_ascii_lowercase env id (first (is_order id env.sec.tenant_id) db.orders) db
