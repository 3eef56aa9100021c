-- ===== src/Auth/Store.antt =====
-- services/auth-service: the rows of its tables, its errors, and what it takes from other crates.
-- Instants are whole seconds since the epoch. Identifiers are numbers.
use peanut_pos.Base.{ℕ, String, Bool, Option, List, ◌==◌}
use peanut_pos.Base.Table.{update}

-- A row of `users`.
pub record AuthRow : Type 0 where
  pub id : ℕ
  pub tenant_id : ℕ
  pub name : String
  pub email : String
  pub role : String
  pub is_active : Bool
  pub password_hash : String
  pub failed_attempts : ℕ
  pub locked_until : Option ℕ
  pub updated_at : ℕ
  pub last_password_reset : Option ℕ
  pub force_password_reset : Bool
  pub mfa_secret : Option String
  pub mfa_pending_secret : Option String
  pub mfa_enrolled_at : Option ℕ
  pub mfa_failed_attempts : ℕ
  pub mfa_last_challenge_at : Option ℕ

-- A row of `auth_refresh_tokens`.
pub record RefreshRow : Type 0 where
  pub jti : ℕ
  pub user_id : ℕ
  pub tenant_id : ℕ
  pub token_hash : String
  pub issued_at : ℕ
  pub expires_at : ℕ

pub record World : Type 0 where
  pub users : List AuthRow
  pub tokens : List RefreshRow

pub data AuthError : Type 0 where
  invalid_credentials account_inactive mfa_required mfa_not_enrolled mfa_invalid : AuthError
  session_expired internal_error : AuthError
  account_locked : Option ℕ → AuthError
  with_detail : ℕ → String → AuthError

-- The status and the code of the response.
unfoldable pub into_response : AuthError → ℕ × String
into_response invalid_credentials = (401, "INVALID_CREDENTIALS")
into_response (account_locked until) = (423, "ACCOUNT_LOCKED")
into_response account_inactive = (403, "ACCOUNT_INACTIVE")
into_response mfa_required = (401, "MFA_REQUIRED")
into_response mfa_not_enrolled = (403, "MFA_NOT_ENROLLED")
into_response mfa_invalid = (401, "MFA_CODE_INVALID")
into_response session_expired = (401, "SESSION_EXPIRED")
into_response internal_error = (500, "SERVER_ERROR")
into_response (with_detail status code) = (status, code)

-- Other crates: Argon2 (`is_phc` says that a stored hash parses), SHA-256, HMAC-SHA1 over a counter,
-- Base32; and the text functions of Rust's standard library (`mentions s t`: `s.contains(t)`).
pub record Crates : Type 0 where
  pub trim : String → String
  pub split_semicolons : String → List String
  pub mentions : String → String → Bool
  pub to_ascii_lowercase : String → String
  pub to_ascii_uppercase : String → String
  pub is_phc : String → Bool
  pub argon2_verify : String → String → Bool
  pub argon2_hash : ℕ → String → Option String
  pub sha256 : String → String
  pub base32_decode : String → Option (List ℕ)
  pub hmac_sha1 : List ℕ → ℕ → List ℕ

-- UPDATE users SET ... WHERE id = ...
unfoldable pub set_user : ℕ → (AuthRow → AuthRow) → World → World
unfolding update
set_user id f w = record w { users = update (λ r. r.id == id) f w.users }
