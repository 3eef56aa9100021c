-- ===== src/Auth/Enrollment/Secrets.antt =====
-- What enrollment means for the logins that follow.
use peanut_pos.Base.{
  ℕ, String, ◌≡◌, ◌≢◌, refl, sym, subst, ◌∙◌, inl, inr, Bool, true, some, Option-cases, List, [],
  ◌∷◌, ◌==◌, ◌||◌, arith,
}
use peanut_pos.Base.Table.{first, update}
use peanut_pos.Base.Api.{ok}
use peanut_pos.Auth.Store.{AuthRow, World, Crates, set_user}
use peanut_pos.Auth.Mfa.{verify_totp_code}
use peanut_pos.Auth.Login
use peanut_pos.Auth.Login.{
  LoginRequest, LoginResponse, find_user, asked_for, login_user, requires_mfa, should_enforce_for,
  entered_code, is_some,
}
use peanut_pos.Auth.Session.{Call}
use peanut_pos.Auth.Enrollment.Told.{AllTold, first-Told, verified-Told}
use peanut_pos.Auth.Enrollment.Kept.{served, served-Told}
use peanut_pos.Auth.Login.Guard.{login_user-Passed}
use peanut_pos.Auth.Enrollment.{
  Env, MfaEnrollmentResponse, MfaVerifyResponse, user_by_id, pending_with, enrolled_with,
  pending_secret, begin_mfa_enrollment, verify_mfa_enrollment,
}

-- A user with a secret, confirmed or not, is always asked for the second factor.
secret_enforced :
    (lib : Crates) (config : Login.AuthConfig) (row : AuthRow)
    → (is_some row.mfa_secret || is_some row.mfa_pending_secret) ≡ true
    → requires_mfa lib config row ≡ true
unfolding requires_mfa should_enforce_for
secret_enforced lib config row h = ground arith

-- A row of the user that is found after an update of the user is an updated one.
found_updated :
    {B : Type 0} (p : AuthRow → Bool) (id : ℕ) (f : AuthRow → AuthRow) (field : AuthRow → B) (b : B)
    (rs : List AuthRow) (row : AuthRow)
    → ((r : AuthRow) → (f r).id ≡ r.id)
    → ((r : AuthRow) → field (f r) ≡ b)
    → first p (update (λ r. r.id == id) f rs) ≡ some row
    → row.id ≡ id
    → field row ≡ b
unfolding first update
found_updated p id f field b [] row keeps sets found same = absurd (ground arith)
found_updated p id f field b (r ∷ rs) row keeps sets found same =
    ground (arith, keeps r, sets r, found_updated p id f field b rs row keeps sets)

module _ (lib : Crates) (env : Env) where
  begun_pending :
      (w : World) (e : MfaEnrollmentResponse) (req : LoginRequest) (row : AuthRow)
      → (begin_mfa_enrollment env w).0 ≡ ok e
      → find_user req (begin_mfa_enrollment env w).1 ≡ some row
      → row.id ≡ env.user_id
      → row.mfa_pending_secret ≡ some e.secret
  unfolding begin_mfa_enrollment find_user set_user
  begun_pending w e req row begun found same = elim (Option-cases (user_by_id env.user_id w)) [
    | inl u ↦ absurd (ground arith)
    | inr (r, u) ↦
        let at_secret : env.secret ≡ e.secret = ground arith in
        rw (← at_secret) (
          found_updated (asked_for req) env.user_id (pending_with env.secret)
            (λ r. r.mfa_pending_secret) (some env.secret) w.users row (λ r. refl) (λ r. refl)
            (ground arith) same)
  ]

  -- From the moment that a user begins to enroll a second factor until the enrollment is verified no
  -- login of that user succeeds: whatever the configuration, the password and the code, and although
  -- the user may have been enrolled with another secret or not at all.
  begun_blocks_login :
      (w : World) (e : MfaEnrollmentResponse) (login_env : Login.Env) (req : LoginRequest)
      (row : AuthRow) (r : LoginResponse)
      → (begin_mfa_enrollment env w).0 ≡ ok e
      → find_user req (begin_mfa_enrollment env w).1 ≡ some row
      → row.id ≡ env.user_id
      → (login_user lib login_env req (begin_mfa_enrollment env w).1).0 ≢ ok r
  begun_blocks_login w e login_env req row r begun found same h =
      let passed = login_user-Passed lib login_env req (begin_mfa_enrollment env w).1 r h in
      let here : some passed.row ≡ some row = sym passed.found ∙ found in
      let pending : row.mfa_pending_secret ≡ some e.secret =
        begun_pending w e req row begun found same in
      let pending' : passed.row.mfa_pending_secret ≡ some e.secret = ground arith in
      let asked =
        passed.possesses (secret_enforced lib login_env.config passed.row (ground arith)) in
      let settled = asked.settled in absurd (ground arith)

  -- What a verification that succeeds has found, and the state after it.
  verified_state :
      (code : String) (w : World) (v : MfaVerifyResponse)
      → (verify_mfa_enrollment lib env code w).0 ≡ ok v
      → (secret : String) × (pending_secret env.user_id w ≡ some secret)
        × ((verify_mfa_enrollment lib env code w).1
            ≡ set_user env.user_id (enrolled_with secret env.now) w)
  unfolding verify_mfa_enrollment
  verified_state code w v h = elim (Option-cases (pending_secret env.user_id w)) [
    | inl e ↦ absurd (ground arith)
    | inr (secret, e) ↦ (secret, e, ground arith)
  ]

  -- A verification that succeeds turns the secret that awaited it into the one that logins ask for:
  -- after any logins, refreshes and logouts of all users that follow it, whatever they answer, a login
  -- of that user that succeeds has entered a code of the secret, whatever the configuration.
  pub verified_asks_code :
      (code : String) (w : World) (v : MfaVerifyResponse) (secret : String) (cs : List Call)
      (login_env : Login.Env) (req : LoginRequest) (row : AuthRow) (r : LoginResponse)
      → pending_secret env.user_id w ≡ some secret
      → (verify_mfa_enrollment lib env code w).0 ≡ ok v
      → find_user req (served lib cs (verify_mfa_enrollment lib env code w).1) ≡ some row
      → row.id ≡ env.user_id
      → (login_user lib login_env req (served lib cs (verify_mfa_enrollment lib env code w).1)).0
        ≡ ok r
      → (digits : List ℕ) × (entered_code req ≡ some digits)
        × (verify_totp_code lib login_env.challenge_at secret digits ≡ true)
  unfolding find_user
  verified_asks_code code w v secret cs login_env req row r pending done found same h =
      let (s, e, after) = verified_state code w v done in
      let at_s : s ≡ secret = ground arith in
      let told : AllTold env.user_id s (verify_mfa_enrollment lib env code w).1 =
        subst (AllTold env.user_id s) (sym after) (verified-Told env.user_id s env w refl) in
      let later = served lib cs (verify_mfa_enrollment lib env code w).1 in
      let passed = login_user-Passed lib login_env req later r h in
      let here : some passed.row ≡ some row = sym passed.found ∙ found in
      let enrolled : row.mfa_secret ≡ some s =
        first-Told env.user_id s (asked_for req) later.users row
          (served-Told env.user_id s lib cs (verify_mfa_enrollment lib env code w).1 told) found
          same in
      let enrolled' : passed.row.mfa_secret ≡ some s = ground arith in
      let asked =
        passed.possesses (secret_enforced lib login_env.config passed.row (ground arith)) in
      let known = asked.enrolled in
      let is_s : asked.secret ≡ secret = ground arith in
      (
        asked.code,
        asked.entered,
        subst (λ x. verify_totp_code lib login_env.challenge_at x asked.code ≡ true) is_s
            asked.verified,
      )
