-- ===== src/Security/Tests.antt =====
-- Checks of capabilities and tenants, and the theorems at them.
use peanut_pos.Base.{ℕ, String, ◌≡◌, ◌≢◌, ◌↔◌, true, Option, some, [], ◌∷◌}
use peanut_pos.Base.Lists.{any}
use peanut_pos.Base.Api.{ok}
use peanut_pos.Security.Role.{SecurityContext, cashier, support}
use peanut_pos.Security.Policy.{customer_write, ensure_capability}
use peanut_pos.Security.Guards.{Claims, value, tenant_id_from_request}
use peanut_pos.Security.Access.{may_use, fresh, ensure_capability_iff}
use peanut_pos.Security.Tenancy.{tenant_id_from_request_iff}

abbrev till : SecurityContext
till = record { tenant_id = 7; roles = cashier ∷ support ∷ [] }

ensure_capability_iff_example :
    ((ensure_capability till customer_write fresh).0 ≡ ok tt)
    ↔ (any (λ r. may_use r customer_write) (cashier ∷ support ∷ []) ≡ true)
ensure_capability_iff_example = ensure_capability_iff till customer_write fresh

abbrev same_text : String → String
same_text s = s

abbrev parses : String → Option ℕ
parses s = some 7

abbrev token : Claims
token = record { tenant_id = 7; roles = [] }

tenant_id_from_request_iff_example :
    (tenant_id_from_request same_text parses (value "7") token ≡ ok token.tenant_id) ↔ (
      (token.tenant_id ≡ token.tenant_id)
      × ((raw : String) × (value "7" ≡ value raw)
          × (same_text raw ≢ "")
          × (parses raw ≡ some token.tenant_id)))
tenant_id_from_request_iff_example =
    tenant_id_from_request_iff same_text parses (value "7") token token.tenant_id
