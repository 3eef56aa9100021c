-- ===== src/Auth/Session.antt =====
-- services/auth-service/src/user_handlers.rs: `refresh_session` and `logout_user`, and the sessions
-- that logins, refreshes and logouts make up. The text of the cookies that replies set is left out
-- past the refresh token that they carry.
pub mod Counts
pub mod SingleUse
pub mod Disabled
pub mod Users
mod Tests
use Prim.Native.String.{◌++◌, len, slice}
use text.Mathlib.Text.{starts_with}
use peanut_pos.Base.{String, Bool, ◌||◌, Option, none, some, List, [], ◌∷◌, if◌then◌else◌}
use peanut_pos.Base.Api.{Result, ok, err}
use peanut_pos.Auth.Store.{AuthRow, World, AuthError, Crates, session_expired, internal_error}
use peanut_pos.Auth.Tokens.{
  failed, Signer, RefreshTokenAccount, issue_tokens, consume_refresh_token,
}
use peanut_pos.Auth.Login
use peanut_pos.Auth.Login.{LoginRequest, LoginResponse, login_user, subject_of}

pub record Env : Type 0 where
  pub cookie_name : String
  pub signer : Signer
  pub cookie_fails : Bool

unfoldable pub find_cookie : String → List String → Option String
find_cookie prefix [] = none
find_cookie prefix (s ∷ ss) =
    if starts_with s prefix then some (slice s (len prefix) (len s)) else find_cookie prefix ss

-- The account: the tenant is that of the token.
abbrev pub account_of : RefreshTokenAccount → AuthRow
account_of a = record a.user { tenant_id = a.token.tenant_id }

module _ (lib : Crates) where
  unfoldable pub trimmed : List String → List String
  trimmed [] = []
  trimmed (s ∷ ss) = lib.trim s ∷ trimmed ss

  -- The argument is the Cookie header, where there is one that is a text.
  unfoldable pub extract_refresh_cookie : String → Option String → Option String
  unfolding find_cookie trimmed
  extract_refresh_cookie name header = elim header [
    | none ↦ none
    | some raw ↦ find_cookie (name ++ "=") (trimmed (lib.split_semicolons raw))
  ]

  -- New tokens for the account that a token stood for, and the reply.
  unfoldable pub renew : Env → RefreshTokenAccount → World → Result AuthError LoginResponse × World
  unfolding issue_tokens subject_of
  renew env a w =
      let (issued, w') = issue_tokens lib env.signer (subject_of lib (account_of a)) w in
      elim issued [
        | err e ↦ (err internal_error, w')
        | ok tokens ↦ if env.cookie_fails then (err internal_error, w') else (
          ok record {
            user_id = a.user.id;
            tenant_id = a.token.tenant_id;
            role = a.user.role;
            force_password_reset = a.user.force_password_reset;
            tokens = tokens;
          },
          w',
        )
      ]

  unfoldable pub refresh_with : Env → String → World → Result AuthError LoginResponse × World
  unfolding consume_refresh_token renew
  refresh_with env cookie w =
      let (consumed, w') = consume_refresh_token lib env.signer cookie w in
      elim consumed [
        | err (failed text) ↦ (
          err (
              if lib.mentions text "expired" || lib.mentions text "invalid"
              then session_expired
              else internal_error),
          w',
        )
        | ok none ↦ (err session_expired, w')
        | ok (some a) ↦ renew env a w'
      ]

  unfoldable pub refresh_session :
      Env → Option String → World → Result AuthError LoginResponse × World
  unfolding extract_refresh_cookie refresh_with
  refresh_session env header w = elim (extract_refresh_cookie env.cookie_name header) [
    | none ↦ (err session_expired, w)
    | some cookie ↦ refresh_with env cookie w
  ]

  -- The reply is 204 whatever happens.
  unfoldable pub logout_user : Env → Option String → World → World
  unfolding extract_refresh_cookie consume_refresh_token
  logout_user env header w = elim (extract_refresh_cookie env.cookie_name header) [
    | none ↦ w
    | some cookie ↦ (consume_refresh_token lib env.signer cookie w).1
  ]

pub data Call : Type 0 where
  login : Login.Env → LoginRequest → Call
  refresh logout : Env → Option String → Call

module _ (lib : Crates) where
  unfoldable pub serve : Call → World → World
  unfolding login_user refresh_session logout_user
  serve (login env req) w = (login_user lib env req w).1
  serve (refresh env header) w = (refresh_session lib env header w).1
  serve (logout env header) w = logout_user lib env header w
