-- ===== src/Security/Guards.antt =====
-- services/common/auth/src/guards.rs: the guards of the older services. A tenant header is absent,
-- not readable as text, or a text; `parse_uuid` is the uuid crate's parser.
use peanut_pos.Base.{ℕ, String, Option, none, some, List, [], ◌∷◌, ◌==◌, if◌then◌else◌}
use peanut_pos.Base.Api.{Result, ok, err}
use peanut_pos.Base.Lists.{any}
use text.Mathlib.Text.{◌==◌ as str_eq}

pub data GuardError : Type 0 where
  missing_tenant_header invalid_tenant_header : GuardError
  tenant_mismatch : ℕ → ℕ → GuardError
  forbidden : List String → GuardError

-- `into_response`: the status.
unfoldable pub into_response : GuardError → ℕ
into_response missing_tenant_header = 400
into_response invalid_tenant_header = 400
into_response (tenant_mismatch expected received) = 403
into_response (forbidden required) = 403

-- The claims of the verified token that the guards read.
pub record Claims : Type 0 where
  pub tenant_id : ℕ
  pub roles : List String

unfoldable pub ensure_role : Claims → List String → Result GuardError (Unit {0})
ensure_role claims [] = ok tt
ensure_role claims (a ∷ allowed) =
    if any (λ role. any (λ required. str_eq role required) (a ∷ allowed)) claims.roles
    then ok tt
    else err (forbidden (a ∷ allowed))

-- The X-Tenant-ID header: bytes that may not be text.
pub data Header : Type 0 where
  absent : Header
  not_text : Header
  value : String → Header

module _ (trim : String → String) (parse_uuid : String → Option ℕ) where
  unfoldable pub tenant_id_from_request : Header → Claims → Result GuardError ℕ
  tenant_id_from_request absent claims = err missing_tenant_header
  tenant_id_from_request not_text claims = err invalid_tenant_header
  tenant_id_from_request (value raw) claims =
      if str_eq (trim raw) "" then err invalid_tenant_header else elim (parse_uuid (trim raw)) [
        | none ↦ err invalid_tenant_header
        | some requested ↦
            if requested == claims.tenant_id
            then ok requested
            else err (tenant_mismatch claims.tenant_id requested)
      ]
