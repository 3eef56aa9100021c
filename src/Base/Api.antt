-- ===== src/Base/Api.antt =====
-- common-http-errors: the error that every handler returns (services/common/http-errors/src/lib.rs).
-- Trace ids and messages are left out: no handler reads them back.
use Prim.Native.Nat.{ℕ}
use Prim.Native.String.{String}
use mathlib.Core.Path.{◌≡◌, refl}
use mathlib.Core.Logic.{◌⊎◌, inl, inr}

pub data ApiError : Type 0 where
  forbidden_missing_role : String → ApiError
  forbidden : ApiError
  bad_request : String → ApiError
  conflict : String → ApiError
  not_found : String → ApiError
  internal : ApiError

-- The status and the error code of the response.
unfoldable pub into_response : ApiError → ℕ × String
into_response (forbidden_missing_role role) = (403, "missing_role")
into_response forbidden = (403, "forbidden")
into_response (bad_request code) = (400, code)
into_response (conflict code) = (409, code)
into_response (not_found code) = (404, code)
into_response internal = (500, "internal_error")

-- Rust's `Result`.
pub data Result {ℓ κ} (E : Type κ) (A : Type ℓ) : Type (ℓ ⊔ κ) where
  ok : A → Result E A
  err : E → Result E A

pub Result-cases {ℓ κ} :
    {E : Type κ} {A : Type ℓ} (r : Result E A) → ((e : E) × (r ≡ err e)) ⊎ ((a : A) × (r ≡ ok a))
Result-cases (ok a) = inr (a, refl)
Result-cases (err e) = inl (e, refl)
