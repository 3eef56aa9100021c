-- ===== src/Security/Tenancy.antt =====
-- The tenant guard, and the older role guard against its specification.
use text.Mathlib.TextEquality.{eq_iff}
use peanut_pos.Base.{ℕ, String, ◌≡◌, ◌≢◌, ◌↔◌, refl, Option, some, arith}
use peanut_pos.Base.Api.{ok}
use peanut_pos.Security.Guards.{Claims, Header, value, tenant_id_from_request}

-- A request passes the tenant guard exactly when its header is a text that trims to something that is
-- not empty and parses to the tenant of the verified token, and the tenant returned is that one.
pub tenant_id_from_request_iff :
    (trim : String → String) (parse_uuid : String → Option ℕ) (h : Header) (claims : Claims) (t : ℕ)
    → (tenant_id_from_request trim parse_uuid h claims ≡ ok t) ↔ (
        (t ≡ claims.tenant_id)
        × ((raw : String) × (h ≡ value raw)
            × (trim raw ≢ "")
            × (parse_uuid (trim raw) ≡ some claims.tenant_id)))
unfolding tenant_id_from_request
tenant_id_from_request_iff trim parse_uuid (value raw) claims t = (
  λ e. (ground arith, (raw, refl, ground (arith, eq_iff (trim raw) ""), ground arith)),
  λ e. ground (arith, eq_iff (trim raw) ""),
)
tenant_id_from_request_iff trim parse_uuid h claims t = (λ e. cc, λ e. cc)
