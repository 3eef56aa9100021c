-- ===== src/Auth/Session/Disabled.antt =====
-- Refreshing the session of an account that may not log in.
use text.Mathlib.Text.{◌==◌ as str_eq}
use peanut_pos.Base.{
  String, ◌≡◌, ◌<◌, refl, false, Option, none, some, [], ◌∷◌, ◌++◌, arith, ◌==◌, ◌+◌,
}
use peanut_pos.Base.Table.{delete}
use peanut_pos.Base.Api.{ok, err}
use peanut_pos.Auth.Store.{World, Crates, account_inactive}
use peanut_pos.Auth.Tokens.{
  RefreshTokenAccount, issue_tokens, find_token, consume_refresh_token, new_token,
}
use peanut_pos.Auth.Login
use peanut_pos.Auth.Login.{
  LoginRequest, LoginResponse, finds_user, find_user, login_user, login_row, subject_of,
}
use peanut_pos.Auth.Session
use peanut_pos.Auth.Session.{
  account_of, extract_refresh_cookie, refresh_session, refresh_with, renew,
}

module _ (lib : Crates) where
  -- An account that is disabled keeps its sessions: where no statement fails, a stored token of it
  -- that is not expired is exchanged for new tokens of the account, although a login for the same
  -- account is refused as inactive. Nothing of the account but its identity and role is looked at,
  -- so neither a lock nor a password reset stops the refresh.
  disabled_refreshes :
      (env : Session.Env) (header : Option String) (cookie : String) (a : RefreshTokenAccount)
      (w : World) (login_env : Login.Env) (req : LoginRequest)
      → extract_refresh_cookie lib env.cookie_name header ≡ some cookie
      → str_eq (lib.trim cookie) "" ≡ false
      → env.signer.consume_fails ≡ none
      → env.signer.sign_fails ≡ false
      → env.signer.insert_fails ≡ false
      → env.cookie_fails ≡ false
      → find_token (lib.sha256 cookie) w.users w.tokens ≡ some a
      → env.signer.now < a.token.expires_at
      → a.user.is_active ≡ false
      → login_env.fails finds_user ≡ false
      → find_user req w ≡ some a.user
      → (login_user lib login_env req w ≡ (err account_inactive, w))
        × ((r : LoginResponse) × (refresh_session lib env header w ≡ (
          ok r,
          record w {
            tokens =
                delete (λ t. t.jti == a.token.jti) w.tokens
                ++ new_token lib env.signer (subject_of lib (account_of a)) ∷ [];
          },
        ))
            × (r.user_id ≡ a.user.id)
            × (r.role ≡ a.user.role)
            × (r.tokens.refresh_token ≡ env.signer.refresh_token))
  unfolding login_user login_row refresh_session refresh_with consume_refresh_token renew
      issue_tokens subject_of
  disabled_refreshes env header cookie a w login_env req c1 c2 c3 c4 c5 c6 found fresh off reads
        user =
      (
        ground arith,
        (
          record {
            user_id = a.user.id;
            tenant_id = a.token.tenant_id;
            role = a.user.role;
            force_password_reset = a.user.force_password_reset;
            tokens = record {
              subject = subject_of lib (account_of a);
              refresh_token = env.signer.refresh_token;
              access_expires_at = env.signer.now + env.signer.config.access_ttl_seconds;
              refresh_expires_at = env.signer.now + env.signer.config.refresh_ttl_seconds;
            };
          },
          ground arith,
          refl,
          refl,
          refl,
        ),
      )
