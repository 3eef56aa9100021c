-- ===== src/Auth/Enrollment/Kept.antt =====
-- The secret of a user over logins, refreshes and logouts.
use peanut_pos.Base.{
  ℕ, String, ◌≡◌, refl, sym, subst, ◌⊎◌, Bool, true, false, inl, inr, Bool-cases, Option-cases,
  List, [], ◌∷◌, arith,
}
use peanut_pos.Auth.Store.{AuthRow, World, Crates, set_user, AuthError}
use text.Mathlib.Text.{◌==◌ as str_eq}
use peanut_pos.Base.Api.{Result, ok, err}
use peanut_pos.Auth.Login
use peanut_pos.Auth.Login.{
  LoginRequest, find_user, login_user, login_row, after_password, second_factor, sign_in,
  clear_failures, check_password, reset_expired, refuse_password, refuse_code, accept_code,
  requires_mfa,
}
use peanut_pos.Auth.Session.{Call, login, refresh, logout, serve}
use peanut_pos.Auth.Session.Users.{signed_in_users, refresh_users, logout_users}
use peanut_pos.Auth.Enrollment.Told.{
  AllTold, set_user-Told, unless-Told, reset-Told, cleared-Told, refused-Told, code_refused-Told,
  accepted-Told,
}

module _ (lib : Crates) where
  -- What any logins, refreshes and logouts leave.
  unfoldable pub served : List Call → World → World
  unfolding serve
  served [] w = w
  served (c ∷ cs) w = served cs (serve lib c w)

module _ (id : ℕ) (secret : String) (lib : Crates) where
  -- Where a second factor leaves the tables.
  factor_cases :
      (env : Login.Env) (req : LoginRequest) (row : AuthRow) (w : World)
      → ((second_factor lib env req row w).1 ≡ w)
        ⊎ ((second_factor lib env req row w).1 ≡ accept_code env row w)
        ⊎ ((second_factor lib env req row w).1 ≡ (refuse_code env row w).1)
  unfolding second_factor
  factor_cases env req row w = ground arith

  factor-Told :
      (env : Login.Env) (req : LoginRequest) (row : AuthRow) (w : World)
      → AllTold id secret w
      → AllTold id secret (second_factor lib env req row w).1
  factor-Told env req row w h = elim (factor_cases env req row w) [
    | inl e ↦ subst (AllTold id secret) (sym e) h
    | inr (inl e) ↦ subst (AllTold id secret) (sym e) (accepted-Told id secret env row w h)
    | inr (inr e) ↦ subst (AllTold id secret) (sym e) (code_refused-Told id secret env row w h)
  ]

  checked-Told :
      (env : Login.Env) (req : LoginRequest) (row : AuthRow) (w : World)
      → AllTold id secret w
      → AllTold id secret (check_password lib env req row w).1
  unfolding check_password
  checked-Told env req row w h = elim (Bool-cases (lib.is_phc row.password_hash)) [
    | inl e ↦ rw e h
    | inr e ↦ elim (Bool-cases (str_eq row.password_hash req.password)) [
      | inr d ↦ rw (e, d) h
      | inl d ↦ by_hash e d (Login.hash_password lib env.salt req.password) refl
    ]
  ]
    where
      by_hash :
          lib.is_phc row.password_hash ≡ false
          → str_eq row.password_hash req.password ≡ true
          → (o : Result (ℕ × String) String) → Login.hash_password lib env.salt req.password ≡ o
          → AllTold id secret (check_password lib env req row w).1
      by_hash e d (err x) c = rw (e, d, c) h
      by_hash e d (ok new_hash) c =
          rw (e, d, c)
            (unless-Told id secret (env.fails Login.upgrades_hash) w (set_user row.id _ w) h
              (set_user-Told id secret row.id _ w (λ r k. k) h))

  signed_in-Told :
      (env : Login.Env) (row : AuthRow) (w : World)
      → AllTold id secret w
      → AllTold id secret (sign_in lib env row w).1
  signed_in-Told env row w h = rw (signed_in_users lib env row w) h

  after_password-Told :
      (env : Login.Env) (req : LoginRequest) (row : AuthRow) (w : World)
      → AllTold id secret w
      → AllTold id secret (after_password lib env req row w).1
  unfolding after_password
  after_password-Told env req row w h =
      elim (Bool-cases (requires_mfa lib env.config (clear_failures env row w).0)) [
        | inr e ↦ rw e (signed_in-Told env row' w' h')
        | inl e ↦ by_factor e (second_factor lib env req row' w').0 refl
      ]
    where
      row' : AuthRow
      row' = (clear_failures env row w).0

      w' : World
      w' = (clear_failures env row w).1

      h' : AllTold id secret (clear_failures env row w).1
      h' = cleared-Told id secret env row w h

      by_factor :
          requires_mfa lib env.config (clear_failures env row w).0 ≡ true
          → (r : Result AuthError Unit)
          → (second_factor lib env req (clear_failures env row w).0 (clear_failures env row w).1).0
            ≡ r
          → AllTold id secret (after_password lib env req row w).1
      by_factor e (err x) d = rw (e, d) (factor-Told env req row' w' h')
      by_factor e (ok x) d =
          rw (e, d)
            (signed_in-Told env row' (second_factor lib env req row' w').1
              (factor-Told env req row' w' h'))

  row-Told :
      (env : Login.Env) (req : LoginRequest) (row : AuthRow) (w : World)
      → AllTold id secret w
      → AllTold id secret (login_row lib env req row w).1
  unfolding login_row
  row-Told env req row w h = elim (Bool-cases row.is_active) [
    | inr a ↦ rw a h
    | inl a ↦ elim (Bool-cases (Login.is_locked env.now row)) [
      | inl l ↦ subst (AllTold id secret) (sym (locked_world a l)) h
      | inr l ↦ by_check a l (check_password lib env req row' w').0 refl
    ]
  ]
    where
      row' : AuthRow
      row' = (reset_expired env row w).0

      w' : World
      w' = (reset_expired env row w).1

      v : World
      v = (check_password lib env req (reset_expired env row w).0 (reset_expired env row w).1).1

      told :
          AllTold id secret
            (check_password lib env req (reset_expired env row w).0 (reset_expired env row w).1).1
      told = checked-Told env req row' w' (reset-Told id secret env row w h)

      locked_world :
          row.is_active ≡ true
          → Login.is_locked env.now row ≡ true
          → (login_row lib env req row w).1 ≡ w
      locked_world a l = ground arith

      by_check :
          row.is_active ≡ true
          → Login.is_locked env.now row ≡ false
          → (r : Result AuthError Bool)
          → (check_password lib env req (reset_expired env row w).0 (reset_expired env row w).1).0
            ≡ r
          → AllTold id secret (login_row lib env req row w).1
      by_check a l (err x) c =
          let same : (login_row lib env req row w).1 ≡ v = ground arith in
          subst (AllTold id secret) (sym same) told
      by_check a l (ok true) c =
          let same : (login_row lib env req row w).1 ≡ (after_password lib env req row' v).1 =
            ground arith in
          subst (AllTold id secret) (sym same) (after_password-Told env req row' v told)
      by_check a l (ok false) c =
          let same : (login_row lib env req row w).1 ≡ (refuse_password env row' v).1 =
            ground arith in
          subst (AllTold id secret) (sym same) (refused-Told id secret env row' v told)

  login-Told :
      (env : Login.Env) (req : LoginRequest) (w : World)
      → AllTold id secret w
      → AllTold id secret (login_user lib env req w).1
  unfolding login_user
  login-Told env req w h = elim (Bool-cases (env.fails Login.finds_user)) [
    | inl f ↦ rw f h
    | inr f ↦ elim (Option-cases (find_user req w)) [
      | inl e ↦ rw (f, e) h
      | inr (row, e) ↦ rw (f, e) (row-Told env req row w h)
    ]
  ]

  serve-Told : (c : Call) (w : World) → AllTold id secret w → AllTold id secret (serve lib c w)
  unfolding serve
  serve-Told (login env req) w h = login-Told env req w h
  serve-Told (refresh env header) w h = rw (refresh_users lib env header w) h
  serve-Told (logout env header) w h = rw (logout_users lib env header w) h

  pub served-Told :
      (cs : List Call) (w : World) → AllTold id secret w → AllTold id secret (served lib cs w)
  unfolding served
  served-Told [] w h = h
  served-Told (c ∷ cs) w h = served-Told cs (serve lib c w) (serve-Told c w h)
