-- ===== src/Security/Role.antt =====
-- services/common/security/src/roles.rs, and the X-Roles header of context.rs.
use text.Mathlib.Text.{◌==◌ as str_eq}
use text.Mathlib.TextEquality.{eq_iff}
use peanut_pos.Base.{ℕ, String, ◌≡◌, ◌↔◌, Bool, true, false, ◌||◌, List, arith, if◌then◌else◌}
use peanut_pos.Base.Api.{Result, ok, err}
use peanut_pos.Base.Lists.{any}

pub data Role : Type 0 where
  admin manager support inventory super_admin cashier : Role
  unknown : String → Role

-- The match on the text, arm by arm.
unfoldable pub parse_role : String → Role
parse_role s =
    if str_eq s "admin" || str_eq s "Admin"
    then admin
    else if str_eq s "manager" || str_eq s "Manager"
    then manager
    else if str_eq s "support" || str_eq s "Support"
    then support
    else if str_eq s "inventory" || str_eq s "Inventory"
    then inventory
    else if str_eq s "superadmin"
        || str_eq s "super_admin"
        || str_eq s "SuperAdmin"
        || str_eq s "SUPERADMIN"
    then super_admin
    else if str_eq s "cashier" || str_eq s "Cashier"
    then cashier
    else unknown s

-- The derived `PartialEq`.
unfoldable pub role_eq : Role → Role → Bool
role_eq admin admin = true
role_eq manager manager = true
role_eq support support = true
role_eq inventory inventory = true
role_eq super_admin super_admin = true
role_eq cashier cashier = true
role_eq (unknown s) (unknown t) = str_eq s t
role_eq _ _ = false

pub role_eq_iff : (r s : Role) → (role_eq r s ≡ true) ↔ (r ≡ s)
unfolding role_eq
role_eq_iff (unknown s) (unknown t) = ground (arith, eq_iff s t)
role_eq_iff admin s = ground arith
role_eq_iff manager s = ground arith
role_eq_iff support s = ground arith
role_eq_iff inventory s = ground arith
role_eq_iff super_admin s = ground arith
role_eq_iff cashier s = ground arith
role_eq_iff (unknown t) s = ground arith

-- SecurityContext; the actor and the trace id are used in logs and audit events only.
pub record SecurityContext : Type 0 where
  pub tenant_id : ℕ
  pub roles : List Role

pub data SecurityError : Type 0 where
  missing_tenant mismatched_tenant forbidden invalid_token internal : SecurityError

-- `From<SecurityError> for (StatusCode, String)`: the status.
unfoldable pub status : SecurityError → ℕ
status missing_tenant = 400
status mismatched_tenant = 401
status forbidden = 403
status invalid_token = 401
status internal = 500

unfoldable pub ensure_role : SecurityContext → Role → Result SecurityError (Unit {0})
unfolding role_eq
ensure_role ctx required = if any (role_eq required) ctx.roles then ok tt else err forbidden

unfoldable pub ensure_any_role : SecurityContext → List Role → Result SecurityError (Unit {0})
unfolding role_eq
ensure_any_role ctx required =
    if any (λ r. any (λ x. role_eq x r) required) ctx.roles then ok tt else err forbidden
