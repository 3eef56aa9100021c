-- ===== src/Auth/Tests.antt =====
-- Runs of auth-service, and the theorems at them.
use text.Mathlib.Text.{◌==◌ as str_eq}
use peanut_pos.Base.{ℕ, ◌+◌, ◌≤◌, ◌≡◌, ◌↔◌, refl, true, false, none, some, [], ◌∷◌, inl, inr, arith}
use peanut_pos.Base.Api.{ok, err}
use peanut_pos.Auth.Store.{AuthRow, World, Crates, account_locked}
use peanut_pos.Auth.Mfa.{verify_totp_code}
use peanut_pos.Auth.Mfa.Totp.{Matches, verify_totp_code_iff}
use peanut_pos.Auth.Tokens.{Signer}
use peanut_pos.Auth.Login
use peanut_pos.Auth.Login.{
  LoginRequest, LoginResponse, login_user, find_user, entered_code, lockout_seconds, subject_of,
}
use peanut_pos.Auth.Login.Guard.{Passed, login_user-Passed}
use peanut_pos.Auth.Login.Lockout.{run_logins, SameAccount, WrongGuess, guesses_lock}

-- HMAC of 20 bytes that hold the counter where the code is read from.
abbrev pub crates : Crates
crates = record {
  trim = λ s. s;
  split_semicolons = λ s. s ∷ [];
  mentions = λ s t. false;
  to_ascii_lowercase = λ s. s;
  to_ascii_uppercase = λ s. s;
  is_phc = λ h. str_eq h "phc";
  argon2_verify = λ h p. str_eq p "secret";
  argon2_hash = λ salt p. some "phc";
  sha256 = λ s. s;
  base32_decode = λ s. some [];
  hmac_sha1 =
      λ s c. 0 ∷ 0 ∷ 0 ∷ c ∷ 0 ∷ 0 ∷ 0 ∷ 0 ∷ 0 ∷ 0 ∷ 0 ∷ 0 ∷ 0 ∷ 0 ∷ 0 ∷ 0 ∷ 0 ∷ 0 ∷ 0 ∷ 0 ∷ [];
}

abbrev pub ann : AuthRow
ann = record {
  id = 1;
  tenant_id = 7;
  name = "Ann";
  email = "ann";
  role = "manager";
  is_active = true;
  password_hash = "phc";
  failed_attempts = 3;
  locked_until = none;
  updated_at = 0;
  last_password_reset = none;
  force_password_reset = false;
  mfa_secret = some "S";
  mfa_pending_secret = none;
  mfa_enrolled_at = none;
  mfa_failed_attempts = 0;
  mfa_last_challenge_at = none;
}

abbrev pub world : World
world = record { users = ann ∷ []; tokens = [] }

abbrev pub signer : Signer
signer = record {
  config = record { access_ttl_seconds = 60; refresh_ttl_seconds = 3600 };
  now = 93;
  refresh_token = "fresh";
  jti = 5;
  sign_fails = false;
  insert_fails = false;
  consume_fails = none;
}

abbrev pub desk : Login.Env
desk = record {
  config = record { require_mfa = false; required_roles = []; bypass_tenants = [] };
  now = 92;
  challenge_at = 93;
  salt = 0;
  signer = signer;
  fails = λ s. false;
  cookie_fails = false;
}

abbrev pub right : LoginRequest
right = record { email = "ann"; password = "secret"; tenant_id = some 7; mfa_code = some "000 003" }

abbrev wrong : LoginRequest
wrong = record right { password = "guess" }

abbrev pub signed_in : LoginResponse
signed_in = record {
  user_id = 1;
  tenant_id = 7;
  role = "manager";
  force_password_reset = false;
  tokens = record {
    subject = record { user_id = 1; tenant_id = 7; roles = "manager" ∷ [] };
    refresh_token = "fresh";
    access_expires_at = 153;
    refresh_expires_at = 3693;
  };
}

login_succeeds : (login_user crates desk right world).0 ≡ ok signed_in
unfolding login_user
login_succeeds = refl

login_user-Passed_example : Passed crates desk right world
login_user-Passed_example = login_user-Passed crates desk right world signed_in login_succeeds

ann_found : find_user right world ≡ some ann
unfolding find_user
ann_found = refl

abbrev same_account : SameAccount 90 right desk wrong
same_account = record {
  address = refl;
  tenant = refl;
  late = omega arith;
  early = omega arith;
  reads = refl;
}

guess_Wrong : WrongGuess crates 90 right ann (desk, wrong)
guess_Wrong = record {
  same = same_account;
  wrong = λ k. elim k [ inl (a, b) ↦ ground arith | inr (a, b) ↦ ground arith ];
  writes = refl;
}

guesses_lock_example :
    (until : ℕ) × (90 + lockout_seconds ≤ until)
    × (login_user crates desk right (run_logins crates ((desk, wrong) ∷ (desk, wrong) ∷ []) world)
        ≡ (
          err (account_locked (some until)),
          run_logins crates ((desk, wrong) ∷ (desk, wrong) ∷ []) world,
        ))
guesses_lock_example =
    guesses_lock crates 90 right ann world ((desk, wrong) ∷ (desk, wrong) ∷ []) desk right ann_found
      refl refl (omega arith) (omega arith) (guess_Wrong, (guess_Wrong, tt))
      record {
        address = refl;
        tenant = refl;
        late = omega arith;
        early = omega arith;
        reads = refl;
      }

verify_totp_code_iff_example :
    (verify_totp_code crates 93 "S" (48 ∷ 48 ∷ 48 ∷ 48 ∷ 48 ∷ 51 ∷ []) ≡ true)
    ↔ ((k : ℕ) × Matches crates 93 [] (48 ∷ 48 ∷ 48 ∷ 48 ∷ 48 ∷ 51 ∷ []) k)
verify_totp_code_iff_example =
    verify_totp_code_iff crates 93 "S" [] (48 ∷ 48 ∷ 48 ∷ 48 ∷ 48 ∷ 51 ∷ []) (omega arith) refl
