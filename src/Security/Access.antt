-- ===== src/Security/Access.antt =====
-- What the capability table grants and refuses, and what its counters count.
use peanut_pos.Base.{ℕ, ◌+◌, ◌≡◌, refl, ◌↔◌, Bool, true, false, List, [], ◌∷◌, arith, if◌then◌else◌}
use peanut_pos.Base.Api.{ok}
use peanut_pos.Base.Lists.{any}
use peanut_pos.Security.Role.{
  Role, admin, manager, support, inventory, super_admin, cashier, unknown, role_eq, SecurityContext,
}
use peanut_pos.Security.Policy.{
  Capability, inventory_view, customer_view, customer_write, payment_process, loyalty_view,
  gdpr_manage, allowed_roles, has_capability, Counters, same_capability, bump, ensure_capability,
}

-- The policy read the other way round: what each role may do.
abbrev pub may_use : Role → Capability → Bool
may_use super_admin cap = true
may_use admin cap = true
may_use manager gdpr_manage = false
may_use manager cap = true
may_use support customer_view = true
may_use support cap = false
may_use inventory inventory_view = true
may_use inventory customer_view = true
may_use inventory loyalty_view = true
may_use inventory cap = false
may_use cashier customer_write = false
may_use cashier gdpr_manage = false
may_use cashier cap = true
may_use (unknown s) cap = false

granted : (r : Role) (cap : Capability) → any (λ a. role_eq a r) (allowed_roles cap) ≡ may_use r cap
unfolding allowed_roles role_eq
granted r inventory_view = ground arith
granted r customer_view = ground arith
granted r customer_write = ground arith
granted r payment_process = ground arith
granted r loyalty_view = ground arith
granted r gdpr_manage = ground arith

any-granted :
    (cap : Capability) (rs : List Role)
    → any (λ r. any (λ a. role_eq a r) (allowed_roles cap)) rs ≡ any (λ r. may_use r cap) rs
any-granted cap [] = refl
any-granted cap (r ∷ rs) = ground (arith, granted r cap, any-granted cap rs)

pub has_capability_lem :
    (ctx : SecurityContext) (cap : Capability)
    → has_capability ctx cap ≡ any (λ r. may_use r cap) ctx.roles
unfolding has_capability
has_capability_lem ctx cap = any-granted cap ctx.roles

-- A check passes exactly when one of the caller's roles may use the capability: super admins and
-- admins may use all, managers all but GDPR, support only customer view, inventory clerks the three
-- views, cashiers all but customer write and GDPR, and an unknown role nothing.
pub ensure_capability_iff :
    (ctx : SecurityContext) (cap : Capability) (m : Counters)
    → ((ensure_capability ctx cap m).0 ≡ ok tt) ↔ (any (λ r. may_use r cap) ctx.roles ≡ true)
unfolding ensure_capability
ensure_capability_iff ctx cap m = ground (arith, has_capability_lem ctx cap)

abbrev pub Check : Type 0
Check = SecurityContext × Capability

-- The checks of a run, in order.
abbrev pub run : List Check → Counters → Counters
run [] m = m
run ((ctx, cap) ∷ cs) m = run cs (ensure_capability ctx cap m).1

abbrev pub count : Capability → List Check → ℕ
count c [] = 0
count c ((ctx, cap) ∷ cs) = (if same_capability cap c then 1 else 0) + count c cs

abbrev pub fresh : Counters
fresh = record { allowed = λ c. 0; denied = λ c. 0; denials = λ c. 0 }

run-counts :
    (c : Capability) (cs : List Check) (m : Counters)
    → m.denied c ≡ m.denials c
    → ((run cs m).allowed c + (run cs m).denied c ≡ m.allowed c + m.denied c + count c cs)
      × ((run cs m).denials c ≡ (run cs m).denied c)
run-counts c [] m h = (omega arith, omega arith)
run-counts c ((ctx, cap) ∷ cs) m h =
    ground (arith, step, run-counts c cs (ensure_capability ctx cap m).1)
  where
    step :
        ((ensure_capability ctx cap m).1.allowed c + (ensure_capability ctx cap m).1.denied c
          ≡ m.allowed c + m.denied c + (if same_capability cap c then 1 else 0))
        × ((ensure_capability ctx cap m).1.denied c ≡ (ensure_capability ctx cap m).1.denials c)
    step = unfold ensure_capability bump in ground arith

-- After any checks from fresh counters, the allow and deny counts of each capability add up to the
-- number of its checks, and the denial counter agrees with the deny outcome of the check counter.
run_counts_checks :
    (c : Capability) (cs : List Check)
    → ((run cs fresh).allowed c + (run cs fresh).denied c ≡ count c cs)
      × ((run cs fresh).denials c ≡ (run cs fresh).denied c)
run_counts_checks c cs = omega (arith, run-counts c cs fresh refl)
