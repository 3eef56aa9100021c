-- ===== src/Auth/Tokens.antt =====
-- services/auth-service/src/tokens.rs: issuing a pair of tokens and consuming a refresh token. The
-- access token is not followed past the flag that its signing fails; a fresh refresh token and its
-- identifier are drawn by the caller's environment, where the source draws random bytes.
use text.Mathlib.Text.{◌==◌ as str_eq}
use peanut_pos.Base.{
  ℕ, String, ◌+◌, Bool, Option, none, some, List, [], ◌∷◌, ◌++◌, ◌==◌, leb, if◌then◌else◌,
}
use peanut_pos.Base.Table.{first, delete}
use peanut_pos.Base.Api.{Result, ok, err}
use peanut_pos.Auth.Store.{AuthRow, RefreshRow, World, Crates}

pub record TokenConfig : Type 0 where
  pub access_ttl_seconds : ℕ
  pub refresh_ttl_seconds : ℕ

pub record TokenSubject : Type 0 where
  pub user_id : ℕ
  pub tenant_id : ℕ
  pub roles : List String

pub record IssuedTokens : Type 0 where
  pub subject : TokenSubject
  pub refresh_token : String
  pub access_expires_at : ℕ
  pub refresh_expires_at : ℕ

-- The text of the error, which a refresh looks into.
pub data TokenError : Type 0 where
  failed : String → TokenError

-- What a call of the signer meets: the clock, what it draws, and the statements that fail.
pub record Signer : Type 0 where
  pub config : TokenConfig
  pub now : ℕ
  pub refresh_token : String
  pub jti : ℕ
  pub sign_fails : Bool
  pub insert_fails : Bool
  pub consume_fails : Option String

-- The account that a consumed token stands for.
pub record RefreshTokenAccount : Type 0 where
  pub token : RefreshRow
  pub user : AuthRow

module _ (lib : Crates) where
  unfoldable pub new_token : Signer → TokenSubject → RefreshRow
  new_token env subject = record {
    jti = env.jti;
    user_id = subject.user_id;
    tenant_id = subject.tenant_id;
    token_hash = lib.sha256 env.refresh_token;
    issued_at = env.now;
    expires_at = env.now + env.config.refresh_ttl_seconds;
  }

  unfoldable pub issue_tokens :
      Signer → TokenSubject → World → Result TokenError IssuedTokens × World
  unfolding new_token
  issue_tokens env subject w =
      if env.sign_fails
      then (err (failed "Failed to sign access token"), w)
      else if env.insert_fails
      then (err (failed "Failed to persist refresh token"), w)
      else (
        ok record {
          subject = subject;
          refresh_token = env.refresh_token;
          access_expires_at = env.now + env.config.access_ttl_seconds;
          refresh_expires_at = env.now + env.config.refresh_ttl_seconds;
        },
        record w { tokens = w.tokens ++ new_token env subject ∷ [] },
      )

-- The join of a token with its user.
unfoldable pub owner : List AuthRow → RefreshRow → Option RefreshTokenAccount
unfolding first
owner users r = elim (first (λ u. u.id == r.user_id) users) [
  | none ↦ none
  | some u ↦ some record { token = r; user = u }
]

-- SELECT ... JOIN users ... WHERE token_hash = ... FOR UPDATE, fetched as an optional row.
unfoldable pub find_token : String → List AuthRow → List RefreshRow → Option RefreshTokenAccount
unfolding owner
find_token hash users [] = none
find_token hash users (r ∷ rs) =
    if str_eq r.token_hash hash
    then elim (owner users r) [ none ↦ find_token hash users rs | some a ↦ some a ]
    else find_token hash users rs

-- A transaction: where one of its statements fails, nothing is deleted.
module _ (lib : Crates) where
  unfoldable pub consume_refresh_token :
      Signer → String → World → Result TokenError (Option RefreshTokenAccount) × World
  unfolding find_token delete
  consume_refresh_token env token w =
      if str_eq (lib.trim token) "" then (ok none, w) else elim env.consume_fails [
        | some text ↦ (err (failed text), w)
        | none ↦ elim (find_token (lib.sha256 token) w.users w.tokens) [
          | none ↦ (ok none, w)
          | some a ↦ (
            ok (if leb a.token.expires_at env.now then none else some a),
            record w { tokens = delete (λ r. r.jti == a.token.jti) w.tokens },
          )
        ]
      ]
