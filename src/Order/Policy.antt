-- ===== src/Order/Policy.antt =====
-- services/order-service/src/order_handlers.rs: the return policy of an order with its window and fee, as
-- `refund_order` looks them up.
use text.Mathlib.Text.{◌==◌ as str_eq}
use peanut_pos.Base.{
  ℕ, String, ◌-◌, ◌*◌, Bool, true, not, ◌&&◌, ◌||◌, Option, none, some, List, [], ◌∷◌, ◌==◌, ltb,
  same, if◌then◌else◌,
}
use peanut_pos.Base.Int.{ℤ, pos, ◌+ℤ◌, ◌-ℤ◌, ◌*ℤ◌, ◌/ℤ◌, ltb_ℤ}
use peanut_pos.Base.Table.{first, select}
use peanut_pos.Order.Tables.{Order, ReturnPolicy}

-- The location's policy, the tenant's newest default, or the built-in one.
unfoldable pub newest_policy : List ReturnPolicy → Option ReturnPolicy
newest_policy [] = none
newest_policy (r ∷ rs) = elim (newest_policy rs) [
  | none ↦ some r
  | some q ↦ some (if ltb r.updated_at q.updated_at then q else r)
]

unfoldable pub policy_for : ℕ → Option ℕ → List ReturnPolicy → ReturnPolicy
unfolding first newest_policy select
policy_for t l rows = elim (first (λ r. (r.tenant_id == t) && same r.location_id l) rows) [
  | some r ↦ r
  | none ↦ elim (newest_policy (select (λ r. (r.tenant_id == t) && same r.location_id none) rows)) [
    | some r ↦ r
    | none ↦ record {
      tenant_id = t;
      location_id = none;
      allow_window_days = 30;
      restock_fee_bps = 0;
      manager_override_allowed = true;
      updated_at = 0;
    }
  ]
]

unfoldable pub window_expired : ℕ → ReturnPolicy → Order → Bool
window_expired now policy order =
    ltb 0 policy.allow_window_days
    && ltb (policy.allow_window_days * 86400) (now - order.created_at)

-- In ten-thousandths of a cent, which divides exactly; the column rounds to the nearest cent.
abbrev pub after_fee : ReturnPolicy → ℤ → ℤ
after_fee policy total =
    if ltb 0 policy.restock_fee_bps
    then total *ℤ (pos 10000 -ℤ pos policy.restock_fee_bps)
    else total *ℤ pos 10000

abbrev pub to_cents : ℤ → ℤ
to_cents x = (if ltb_ℤ x (pos 0) then x -ℤ pos 5000 else x +ℤ pos 5000) /ℤ pos 10000

abbrev pub is_refundable : String → Bool
is_refundable s = not (str_eq s "PENDING" || str_eq s "VOIDED" || str_eq s "NOT_ACCEPTED")
