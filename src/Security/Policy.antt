-- ===== src/Security/Policy.antt =====
-- services/common/security/src/policy.rs: the capability table and its check, with the two counters.
use peanut_pos.Base.{ℕ, suc, String, Bool, true, false, List, [], ◌∷◌, if◌then◌else◌}
use peanut_pos.Base.Api.{Result, ok, err}
use peanut_pos.Base.Lists.{any}
use peanut_pos.Security.Role.{
  Role, admin, manager, support, inventory, super_admin, cashier, role_eq, SecurityContext,
  SecurityError, forbidden,
}

pub data Capability : Type 0 where
  inventory_view customer_view customer_write payment_process loyalty_view gdpr_manage : Capability

unfoldable pub allowed_roles : Capability → List Role
allowed_roles inventory_view = super_admin ∷ admin ∷ manager ∷ inventory ∷ cashier ∷ []
allowed_roles customer_view = super_admin ∷ admin ∷ manager ∷ inventory ∷ cashier ∷ support ∷ []
allowed_roles customer_write = super_admin ∷ admin ∷ manager ∷ []
allowed_roles payment_process = super_admin ∷ admin ∷ manager ∷ cashier ∷ []
allowed_roles loyalty_view = super_admin ∷ admin ∷ manager ∷ inventory ∷ cashier ∷ []
allowed_roles gdpr_manage = super_admin ∷ admin ∷ []

-- `as_str`: the metric label.
unfoldable pub as_str : Capability → String
as_str inventory_view = "inventory_view"
as_str customer_view = "customer_view"
as_str customer_write = "customer_write"
as_str payment_process = "payment_process"
as_str loyalty_view = "loyalty_view"
as_str gdpr_manage = "gdpr_manage"

-- The test of `ensure_capability`: some role of the caller is in the table's row.
unfoldable pub has_capability : SecurityContext → Capability → Bool
unfolding allowed_roles role_eq
has_capability ctx cap = any (λ r. any (λ a. role_eq a r) (allowed_roles cap)) ctx.roles

-- CAPABILITY_CHECKS_TOTAL and CAPABILITY_DENIALS_TOTAL, by capability.
pub record Counters : Type 0 where
  pub allowed : Capability → ℕ
  pub denied : Capability → ℕ
  pub denials : Capability → ℕ

unfoldable pub same_capability : Capability → Capability → Bool
same_capability inventory_view inventory_view = true
same_capability customer_view customer_view = true
same_capability customer_write customer_write = true
same_capability payment_process payment_process = true
same_capability loyalty_view loyalty_view = true
same_capability gdpr_manage gdpr_manage = true
same_capability _ _ = false

unfoldable pub bump : Capability → (Capability → ℕ) → Capability → ℕ
unfolding same_capability
bump cap count c = if same_capability cap c then suc (count c) else count c

unfoldable pub ensure_capability :
    SecurityContext → Capability → Counters → Result SecurityError (Unit {0}) × Counters
unfolding has_capability bump
ensure_capability ctx cap m =
    if has_capability ctx cap
    then (ok tt, record m { allowed = bump cap m.allowed })
    else (err forbidden, record m { denied = bump cap m.denied; denials = bump cap m.denials })
