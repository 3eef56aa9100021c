-- ===== src/Auth/Enrollment.antt =====
-- services/auth-service/src/mfa_handlers.rs: enrolling a second factor. The events and the text of the
-- otpauth address are left out; `secret` is the text that `generate_totp_secret` drew.
pub mod Secrets
mod Told
pub mod Kept
mod Tests
use peanut_pos.Base.{ℕ, String, Bool, true, Option, none, some, ◌==◌, if◌then◌else◌}
use peanut_pos.Base.Table.{first}
use peanut_pos.Base.Api.{Result, ok, err}
use peanut_pos.Auth.Store.{
  AuthRow, World, AuthError, Crates, set_user, internal_error, with_detail, mfa_invalid,
}
use peanut_pos.Auth.Mfa.{codes, normalize_mfa_code, verify_totp_code}
use peanut_pos.Auth.Login.{is_some}

-- `user_id` is the subject of the verified token.
pub record Env : Type 0 where
  pub user_id : ℕ
  pub now : ℕ
  pub secret : String
  pub read_fails : Bool
  pub write_fails : Bool

pub record MfaEnrollmentResponse : Type 0 where
  pub secret : String
  pub already_enrolled : Bool

pub record MfaVerifyResponse : Type 0 where
  pub enabled : Bool

unfoldable pub user_by_id : ℕ → World → Option AuthRow
unfolding first
user_by_id id w = first (λ r. r.id == id) w.users

abbrev pub pending_with : String → AuthRow → AuthRow
pending_with secret r = record r { mfa_pending_secret = some secret; mfa_enrolled_at = none }

unfoldable pub begin_mfa_enrollment : Env → World → Result AuthError MfaEnrollmentResponse × World
unfolding user_by_id
begin_mfa_enrollment env w =
    if env.read_fails then (err internal_error, w) else elim (user_by_id env.user_id w) [
      | none ↦ (err internal_error, w)
      | some current ↦ if env.write_fails then (err internal_error, w) else (
        ok record { secret = env.secret; already_enrolled = is_some current.mfa_secret },
        set_user env.user_id (pending_with env.secret) w,
      )
    ]

abbrev pub enrolled_with : String → ℕ → AuthRow → AuthRow
enrolled_with secret now r = record r {
  mfa_secret = some secret;
  mfa_pending_secret = none;
  mfa_enrolled_at = some now;
  mfa_failed_attempts = 0;
}

unfoldable pub pending_secret : ℕ → World → Option String
unfolding user_by_id
pending_secret id w = elim (user_by_id id w) [ none ↦ none | some r ↦ r.mfa_pending_secret ]

module _ (lib : Crates) where
  unfoldable pub verify_mfa_enrollment :
      Env → String → World → Result AuthError MfaVerifyResponse × World
  unfolding pending_secret normalize_mfa_code verify_totp_code
  verify_mfa_enrollment env code w =
      if env.read_fails then (err internal_error, w) else elim (pending_secret env.user_id w) [
        | none ↦ (err (with_detail 400 "MFA_ENROLLMENT_NOT_STARTED"), w)
        | some secret ↦ elim (normalize_mfa_code (codes code)) [
          | none ↦ (err mfa_invalid, w)
          | some digits ↦
              if verify_totp_code lib env.now secret digits
              then (if env.write_fails then (err internal_error, w) else (
                ok record { enabled = true },
                set_user env.user_id (enrolled_with secret env.now) w,
              ))
              else (err mfa_invalid, w)
        ]
      ]
