-- ===== src/Auth/Enrollment/Tests.antt =====
-- Runs of an enrollment, and the theorems at them.
use peanut_pos.Base.{ℕ, ◌≡◌, refl, true, false, none, some, List, [], ◌∷◌}
use peanut_pos.Base.Api.{ok}
use peanut_pos.Auth.Store.{AuthRow, World, set_user}
use peanut_pos.Auth.Mfa.{verify_totp_code}
use peanut_pos.Auth.Login.{login_user, find_user, entered_code}
use peanut_pos.Auth.Enrollment
use peanut_pos.Auth.Enrollment.{verify_mfa_enrollment, pending_secret}
use peanut_pos.Auth.Session
use peanut_pos.Auth.Session.{Call, login, refresh}
use peanut_pos.Auth.Enrollment.Kept.{served}
use peanut_pos.Auth.Enrollment.Secrets.{verified_asks_code}
use peanut_pos.Auth.Tests.{crates, ann, desk, right, signed_in, signer}

abbrev phone : Enrollment.Env
phone = record { user_id = 1; now = 93; secret = "S"; read_fails = false; write_fails = false }

abbrev awaiting : AuthRow
awaiting = record ann { mfa_pending_secret = some "S" }

abbrev halfway : World
halfway = record { users = awaiting ∷ []; tokens = [] }

awaiting_secret : pending_secret 1 halfway ≡ some "S"
unfolding pending_secret
awaiting_secret = refl

verified_ok :
    (verify_mfa_enrollment crates phone "000003" halfway).0 ≡ ok (record { enabled = true })
unfolding verify_mfa_enrollment
verified_ok = refl

abbrev browser : Session.Env
browser = record { cookie_name = "session"; signer = signer; cookie_fails = false }

-- A mistyped code, and a browser without a cookie.
abbrev between : List Call
between = login desk (record right { mfa_code = some "000 009" }) ∷ refresh browser none ∷ []

abbrev enrolled : AuthRow
enrolled = record ann {
  mfa_secret = some "S";
  mfa_enrolled_at = some 93;
  failed_attempts = 0;
  mfa_failed_attempts = 1;
  mfa_last_challenge_at = some 93;
}

abbrev later : World
later = served crates between (verify_mfa_enrollment crates phone "000003" halfway).1

enrolled_found : find_user right later ≡ some enrolled
unfolding find_user verify_mfa_enrollment set_user served
enrolled_found = refl

enrolled_login : (login_user crates desk right later).0 ≡ ok signed_in
unfolding login_user verify_mfa_enrollment set_user served
enrolled_login = refl

verified_asks_code_example :
    (digits : List ℕ) × (entered_code right ≡ some digits)
    × (verify_totp_code crates 93 "S" digits ≡ true)
verified_asks_code_example =
    verified_asks_code crates phone "000003" halfway (record { enabled = true }) "S" between desk
      right enrolled signed_in awaiting_secret verified_ok enrolled_found refl enrolled_login
