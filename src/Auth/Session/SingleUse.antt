-- ===== src/Auth/Session/SingleUse.antt =====
-- How often a refresh token is accepted.
use text.Mathlib.Text.{◌==◌ as str_eq}
use text.Mathlib.TextEquality.{eq_iff}
use peanut_pos.Base.{
  ℕ, String, suc, ◌+◌, ◌≤◌, ◌<◌, ◌≡◌, refl, sym, subst, inl, inr, true, ◌&&◌, Bool-cases, Option,
  none, some, Option-cases, List, [], ◌∷◌, arith, ◌==◌, if◌then◌else◌,
}
use peanut_pos.Base.Api.{Result, ok, err}
use peanut_pos.Auth.Store.{AuthRow, RefreshRow, World, Crates, set_user}
use peanut_pos.Auth.Tokens.{
  TokenError, failed, Signer, TokenSubject, RefreshTokenAccount, issue_tokens, new_token,
  find_token, consume_refresh_token,
}
use peanut_pos.Auth.Login
use peanut_pos.Auth.Login.{
  LoginRequest, LoginResponse, find_user, login_user, login_row, after_password, second_factor,
  sign_in, clear_failures, check_password, reset_expired, refuse_password, refuse_code, accept_code,
  subject_of,
}
use peanut_pos.Auth.Session
use peanut_pos.Auth.Session.{
  account_of, Call, login, refresh, logout, serve, refresh_session, refresh_with, renew,
  logout_user, extract_refresh_cookie,
}
use peanut_pos.Auth.Session.Counts.{
  copies, is_ok, mints, minted, accepts, accepted, copies-append, copies-delete, copies-found,
}

abbrev drawn : Crates → Signer → String → ℕ
drawn lib env h = if str_eq (lib.sha256 env.refresh_token) h then 1 else 0

module _ (lib : Crates) (h : String) where
  issue-copies :
      (env : Signer) (s : TokenSubject) (w : World)
      → copies h (issue_tokens lib env s w).1.tokens ≤ copies h w.tokens + drawn lib env h
  unfolding issue_tokens new_token
  issue-copies env s w = ground (arith, copies-append h w.tokens (new_token lib env s))

  consume-copies :
      (env : Signer) (t : String) (w : World)
      → copies h (consume_refresh_token lib env t w).1.tokens ≤ copies h w.tokens
  unfolding consume_refresh_token
  consume-copies env t w = elim (Option-cases (find_token (lib.sha256 t) w.users w.tokens)) [
    | inl e ↦ ground arith
    | inr (a, e) ↦
        ground (arith, copies-delete h (λ (r : RefreshRow). r.jti == a.token.jti) w.tokens)
  ]

  renew-copies :
      (env : Session.Env) (a : RefreshTokenAccount) (w : World)
      → copies h (renew lib env a w).1.tokens ≤ copies h w.tokens + drawn lib env.signer h
  unfolding renew
  renew-copies env a w = ground (arith, issue-copies env.signer (subject_of lib (account_of a)) w)

  refresh_with-copies :
      (env : Session.Env) (t : String) (w : World)
      → copies h (refresh_with lib env t w).1.tokens ≤ copies h w.tokens + drawn lib env.signer h
  unfolding refresh_with
  refresh_with-copies env t w = by_consumed (consume_refresh_token lib env.signer t w).0 refl
    where
      by_consumed :
          (r : Result TokenError (Option RefreshTokenAccount))
          → (consume_refresh_token lib env.signer t w).0 ≡ r
          → copies h (refresh_with lib env t w).1.tokens
            ≤ copies h w.tokens + drawn lib env.signer h
      by_consumed (err (failed text)) e = ground (arith, consume-copies env.signer t w)
      by_consumed (ok none) e = ground (arith, consume-copies env.signer t w)
      by_consumed (ok (some a)) e = ground (
        arith,
        consume-copies env.signer t w,
        renew-copies env a (consume_refresh_token lib env.signer t w).1,
      )

  sign_in-copies :
      (env : Login.Env) (row : AuthRow) (w : World)
      → copies h (sign_in lib env row w).1.tokens ≤ copies h w.tokens + drawn lib env.signer h
  unfolding sign_in
  sign_in-copies env row w = ground (arith, issue-copies env.signer (subject_of lib row) w)

-- The steps of a login before the tokens leave the stored tokens.
cleared_tokens :
    (env : Login.Env) (row : AuthRow) (w : World) → (clear_failures env row w).1.tokens ≡ w.tokens
unfolding clear_failures set_user
cleared_tokens env row w = ground arith

reset_tokens :
    (env : Login.Env) (row : AuthRow) (w : World) → (reset_expired env row w).1.tokens ≡ w.tokens
unfolding reset_expired set_user
reset_tokens env row w = ground arith

refused_tokens :
    (env : Login.Env) (row : AuthRow) (w : World) → (refuse_password env row w).1.tokens ≡ w.tokens
unfolding refuse_password set_user
refused_tokens env row w = ground arith

factor_tokens :
    (lib : Crates) (env : Login.Env) (req : LoginRequest) (row : AuthRow) (w : World)
    → (second_factor lib env req row w).1.tokens ≡ w.tokens
unfolding second_factor set_user accept_code refuse_code
factor_tokens lib env req row w = ground arith

checked_tokens :
    (lib : Crates) (env : Login.Env) (req : LoginRequest) (row : AuthRow) (w : World)
    → (check_password lib env req row w).1.tokens ≡ w.tokens
unfolding check_password set_user
checked_tokens lib env req row w = ground arith

module _ (lib : Crates) (h : String) (env : Login.Env) (req : LoginRequest) where
  after_password-copies :
      (row : AuthRow) (w : World)
      → copies h (after_password lib env req row w).1.tokens
        ≤ copies h w.tokens + drawn lib env.signer h
  unfolding after_password
  after_password-copies row w =
      let row' = (clear_failures env row w).0 in
      let w' = (clear_failures env row w).1 in
      ground (
        arith,
        cleared_tokens env row w,
        factor_tokens lib env req row' w',
        sign_in-copies lib h env row' w',
        sign_in-copies lib h env row' (second_factor lib env req row' w').1,
      )

  login_row-copies :
      (row : AuthRow) (w : World)
      → copies h (login_row lib env req row w).1.tokens ≤ copies h w.tokens + drawn lib env.signer h
  unfolding login_row
  login_row-copies row w =
      let row' = (reset_expired env row w).0 in
      let w' = (reset_expired env row w).1 in
      let v = (check_password lib env req row' w').1 in
      ground (
        arith,
        reset_tokens env row w,
        checked_tokens lib env req row' w',
        refused_tokens env row' v,
        after_password-copies row' v,
      )

  login_user-copies :
      (w : World)
      → copies h (login_user lib env req w).1.tokens ≤ copies h w.tokens + drawn lib env.signer h
  unfolding login_user
  login_user-copies w = by_user (find_user req w) refl
    where
      by_user :
          (o : Option AuthRow)
          → find_user req w ≡ o
          → copies h (login_user lib env req w).1.tokens
            ≤ copies h w.tokens + drawn lib env.signer h
      by_user none e = ground arith
      by_user (some row) e = ground (arith, login_row-copies row w)

module _ (lib : Crates) (t : String) where
  consumed-copies :
      (env : Signer) (w : World) (a : RefreshTokenAccount)
      → (consume_refresh_token lib env t w).0 ≡ ok (some a)
      → copies (lib.sha256 t) (consume_refresh_token lib env t w).1.tokens
        < copies (lib.sha256 t) w.tokens
  unfolding consume_refresh_token
  consumed-copies env w a e = elim (Option-cases (find_token (lib.sha256 t) w.users w.tokens)) [
    | inl f ↦ absurd (ground arith)
    | inr (b, f) ↦ ground (arith, copies-found (lib.sha256 t) w.users w.tokens b f)
  ]

  -- A refresh with the token that answers with tokens used up a copy.
  refreshed-copies :
      (env : Session.Env) (w : World)
      → is_ok (refresh_with lib env t w).0 ≡ true
      → suc (copies (lib.sha256 t) (refresh_with lib env t w).1.tokens)
        ≤ copies (lib.sha256 t) w.tokens + drawn lib env.signer (lib.sha256 t)
  unfolding refresh_with
  refreshed-copies env w good = by_consumed (consume_refresh_token lib env.signer t w).0 refl
    where
      by_consumed :
          (r : Result TokenError (Option RefreshTokenAccount))
          → (consume_refresh_token lib env.signer t w).0 ≡ r
          → suc (copies (lib.sha256 t) (refresh_with lib env t w).1.tokens)
            ≤ copies (lib.sha256 t) w.tokens + drawn lib env.signer (lib.sha256 t)
      by_consumed (err (failed text)) e = absurd (ground arith)
      by_consumed (ok none) e = absurd (ground arith)
      by_consumed (ok (some a)) e = ground (
        arith,
        consumed-copies env.signer w a e,
        renew-copies lib (lib.sha256 t) env a (consume_refresh_token lib env.signer t w).1,
      )

  refresh_step :
      (env : Session.Env) (cookie : String) (w : World)
      → (if str_eq cookie t && is_ok (refresh_with lib env cookie w).0 then 1 else 0)
          + copies (lib.sha256 t) (refresh_with lib env cookie w).1.tokens
        ≤ copies (lib.sha256 t) w.tokens + drawn lib env.signer (lib.sha256 t)
  refresh_step env cookie w = elim (Bool-cases (str_eq cookie t)) [
    | inr e ↦ rw e (omega (arith, refresh_with-copies lib (lib.sha256 t) env cookie w))
    | inl e ↦ elim (Bool-cases (is_ok (refresh_with lib env cookie w).0)) [
      | inr d ↦ rw (e, d) (omega (arith, refresh_with-copies lib (lib.sha256 t) env cookie w))
      | inl d ↦
          let same : cookie ≡ t = (eq_iff cookie t).0 e in
          rw (e, d)
            (omega (
              arith,
              subst
                  (λ c.
                    is_ok (refresh_with lib env c w).0 ≡ true
                    → suc (copies (lib.sha256 t) (refresh_with lib env c w).1.tokens)
                      ≤ copies (lib.sha256 t) w.tokens + drawn lib env.signer (lib.sha256 t))
                  (sym same) (refreshed-copies env w) d,
            ))
    ]
  ]

  step-copies :
      (c : Call) (w : World)
      → accepts lib t c w + copies (lib.sha256 t) (serve lib c w).tokens
        ≤ copies (lib.sha256 t) w.tokens + mints lib (lib.sha256 t) c
  unfolding accepts serve mints refresh_session logout_user
  step-copies (login env req) w = ground (arith, login_user-copies lib (lib.sha256 t) env req w)
  step-copies (refresh env header) w =
      by_cookie (extract_refresh_cookie lib env.cookie_name header) refl
    where
      by_cookie :
          (o : Option String)
          → extract_refresh_cookie lib env.cookie_name header ≡ o
          → accepts lib t (refresh env header) w
              + copies (lib.sha256 t) (serve lib (refresh env header) w).tokens
            ≤ copies (lib.sha256 t) w.tokens + mints lib (lib.sha256 t) (refresh env header)
      by_cookie none e = ground arith
      by_cookie (some cookie) e = ground (arith, refresh_step env cookie w)
  step-copies (logout env header) w =
      by_cookie (extract_refresh_cookie lib env.cookie_name header) refl
    where
      by_cookie :
          (o : Option String)
          → extract_refresh_cookie lib env.cookie_name header ≡ o
          → accepts lib t (logout env header) w
              + copies (lib.sha256 t) (serve lib (logout env header) w).tokens
            ≤ copies (lib.sha256 t) w.tokens + mints lib (lib.sha256 t) (logout env header)
      by_cookie none e = ground arith
      by_cookie (some cookie) e =
          ground (arith, consume-copies lib (lib.sha256 t) env.signer cookie w)

  -- Over any logins, refreshes and logouts of all users, refreshes with one token answer with new
  -- tokens at most as often as copies of its hash were stored at first or are drawn in the meantime.
  pub accepted-le :
      (cs : List Call) (w : World)
      → accepted lib t cs w ≤ copies (lib.sha256 t) w.tokens + minted lib (lib.sha256 t) cs
  unfolding accepted minted
  accepted-le [] w = omega arith
  accepted-le (c ∷ cs) w = omega (arith, step-copies c w, accepted-le cs (serve lib c w))
