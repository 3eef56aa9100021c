-- ===== src/Auth/Session/Users.antt =====
-- What the tokens of a session leave of the users.
use peanut_pos.Base.{String, ◌≡◌, refl, inl, inr, Option-cases, Option, none, some, arith}
use peanut_pos.Auth.Store.{AuthRow, World, Crates}
use peanut_pos.Base.Api.{Result, ok, err}
use peanut_pos.Auth.Tokens.{
  TokenError, failed, RefreshTokenAccount, TokenSubject, Signer, issue_tokens,
  consume_refresh_token,
}
use peanut_pos.Auth.Login
use peanut_pos.Auth.Login.{sign_in}
use peanut_pos.Auth.Session
use peanut_pos.Auth.Session.{
  account_of, extract_refresh_cookie, refresh_session, refresh_with, renew, logout_user,
}

module _ (lib : Crates) where
  issued_users :
      (env : Signer) (s : TokenSubject) (w : World) → (issue_tokens lib env s w).1.users ≡ w.users
  unfolding issue_tokens
  issued_users env s w = ground arith

  pub signed_in_users :
      (env : Login.Env) (row : AuthRow) (w : World) → (sign_in lib env row w).1.users ≡ w.users
  unfolding sign_in
  signed_in_users env row w = ground (arith, issued_users env.signer (Login.subject_of lib row) w)

  consumed_users :
      (env : Signer) (t : String) (w : World)
      → (consume_refresh_token lib env t w).1.users ≡ w.users
  unfolding consume_refresh_token
  consumed_users env t w = ground arith

  renewed_users :
      (env : Session.Env) (a : RefreshTokenAccount) (w : World)
      → (renew lib env a w).1.users ≡ w.users
  unfolding renew
  renewed_users env a w =
      ground (arith, issued_users env.signer (Login.subject_of lib (account_of a)) w)

  refreshed_users :
      (env : Session.Env) (t : String) (w : World) → (refresh_with lib env t w).1.users ≡ w.users
  unfolding refresh_with
  refreshed_users env t w = by_consumed (consume_refresh_token lib env.signer t w).0 refl
    where
      by_consumed :
          (r : Result TokenError (Option RefreshTokenAccount))
          → (consume_refresh_token lib env.signer t w).0 ≡ r
          → (refresh_with lib env t w).1.users ≡ w.users
      by_consumed (err (failed text)) e = ground (arith, consumed_users env.signer t w)
      by_consumed (ok none) e = ground (arith, consumed_users env.signer t w)
      by_consumed (ok (some a)) e = ground (
        arith,
        consumed_users env.signer t w,
        renewed_users env a (consume_refresh_token lib env.signer t w).1,
      )

  pub refresh_users :
      (env : Session.Env) (header : Option String) (w : World)
      → (refresh_session lib env header w).1.users ≡ w.users
  unfolding refresh_session
  refresh_users env header w =
      elim (Option-cases (extract_refresh_cookie lib env.cookie_name header)) [
        | inl e ↦ ground arith
        | inr (cookie, e) ↦ ground (arith, refreshed_users env cookie w)
      ]

  pub logout_users :
      (env : Session.Env) (header : Option String) (w : World)
      → (logout_user lib env header w).users ≡ w.users
  unfolding logout_user
  logout_users env header w =
      elim (Option-cases (extract_refresh_cookie lib env.cookie_name header)) [
        | inl e ↦ ground arith
        | inr (cookie, e) ↦ ground (arith, consumed_users env.signer cookie w)
      ]
