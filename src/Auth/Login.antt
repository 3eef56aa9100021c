-- ===== src/Auth/Login.antt =====
-- services/auth-service/src/user_handlers.rs: `login_user`, stage by stage. Metrics, log lines and
-- the events of multi-factor activity are left out. A failed UPDATE is logged and passed over, as the
-- source does. Counters start at 0 and are i16.
pub mod Guard
pub mod Lockout
use text.Mathlib.Text.{◌==◌ as str_eq}
use peanut_pos.Base.{
  ℕ, String, ◌+◌, ◌*◌, Bool, true, false, not, ◌&&◌, ◌||◌, Option, none, some, List, [], ◌∷◌, ◌==◌,
  leb, ltb, if◌then◌else◌,
}
use peanut_pos.Base.Lists.{any}
use peanut_pos.Base.Table.{first}
use peanut_pos.Base.Api.{Result, ok, err}
use peanut_pos.Auth.Store.{
  AuthRow, World, AuthError, Crates, set_user, invalid_credentials, account_inactive, mfa_required,
  mfa_not_enrolled, mfa_invalid, internal_error, account_locked, with_detail,
}
use peanut_pos.Auth.Mfa.{codes, normalize_mfa_code, verify_totp_code}
use peanut_pos.Auth.Tokens.{TokenSubject, IssuedTokens, Signer, issue_tokens}

abbrev pub max_failed_attempts : ℕ
max_failed_attempts = 5

-- Fifteen minutes, after failed passwords and after failed codes alike.
abbrev pub lockout_seconds : ℕ
lockout_seconds = 15 * 60

pub record LoginRequest : Type 0 where
  pub email : String
  pub password : String
  pub tenant_id : Option ℕ
  pub mfa_code : Option String

pub record AuthConfig : Type 0 where
  pub require_mfa : Bool
  pub required_roles : List String
  pub bypass_tenants : List ℕ

-- The statements of a login that the database may refuse.
pub data Site : Type 0 where
  finds_user resets_lockout upgrades_hash records_failure clears_failures : Site
  locks_mfa records_mfa clears_mfa : Site

-- `now` is read after the user is found, `challenge_at` when a code is tried; `signer` has the clock
-- of the tokens. `cookie_fails` says that the cookie's text is no header value.
pub record Env : Type 0 where
  pub config : AuthConfig
  pub now : ℕ
  pub challenge_at : ℕ
  pub salt : ℕ
  pub signer : Signer
  pub fails : Site → Bool
  pub cookie_fails : Bool

pub record LoginResponse : Type 0 where
  pub user_id : ℕ
  pub tenant_id : ℕ
  pub role : String
  pub force_password_reset : Bool
  pub tokens : IssuedTokens

unfoldable pub saturating_add_i16 : ℕ → ℕ → ℕ
saturating_add_i16 a b = if ltb (a + b) 32768 then a + b else 32767

abbrev pub asked_for : LoginRequest → AuthRow → Bool
asked_for req r =
    str_eq r.email req.email && (elim req.tenant_id [ none ↦ true | some t ↦ r.tenant_id == t ])

-- Two rows may share an address, in two tenants: without a tenant the first is taken.
unfoldable pub find_user : LoginRequest → World → Option AuthRow
unfolding first
find_user req w = first (asked_for req) w.users

abbrev pub is_locked : ℕ → AuthRow → Bool
is_locked now row = elim row.locked_until [ none ↦ false | some until ↦ ltb now until ]

abbrev pub unlocked : AuthRow → AuthRow
unlocked r = record r { failed_attempts = 0; mfa_failed_attempts = 0; locked_until = none }

-- A lock that is over.
unfoldable pub reset_expired : Env → AuthRow → World → AuthRow × World
reset_expired env row w = elim row.locked_until [
  | none ↦ (row, w)
  | some until ↦
      if env.fails resets_lockout then (row, w) else (unlocked row, set_user row.id unlocked w)
]

module _ (lib : Crates) where
  unfoldable pub hash_password : ℕ → String → Result (ℕ × String) String
  hash_password salt password =
      if str_eq (lib.trim password) ""
      then err (400, "Password must not be empty")
      else elim (lib.argon2_hash salt password) [
        | none ↦ err (500, "Failed to hash password")
        | some h ↦ ok h
      ]

  -- A stored text that is no hash is compared as it is, and replaced by a hash where it matches.
  unfoldable pub check_password :
      Env → LoginRequest → AuthRow → World → Result AuthError Bool × World
  unfolding hash_password
  check_password env req row w =
      if lib.is_phc row.password_hash
      then (ok (lib.argon2_verify row.password_hash req.password), w)
      else if str_eq row.password_hash req.password
      then elim (hash_password env.salt req.password) [
        | err (status, message) ↦ (err (with_detail status "PASSWORD_UPGRADE_FAILED"), w)
        | ok new_hash ↦ (
          ok true,
          if env.fails upgrades_hash
              then w
              else set_user row.id (λ r. record r { password_hash = new_hash }) w,
        )
      ]
      else (ok false, w)

-- A password that does not match.
unfoldable pub lock_after : ℕ → ℕ → Option ℕ
lock_after now attempts =
    if leb max_failed_attempts attempts then some (now + lockout_seconds) else none

unfoldable pub refuse_password : Env → AuthRow → World → Result AuthError LoginResponse × World
unfolding saturating_add_i16 lock_after
refuse_password env row w =
    let attempts = saturating_add_i16 row.failed_attempts 1 in
    let until = lock_after env.now attempts in
    (
      err (elim until [ none ↦ invalid_credentials | some t ↦ account_locked (some t) ]),
      if env.fails records_failure
          then w
          else set_user row.id (λ r. record r { failed_attempts = attempts; locked_until = until })
              w,
    )

abbrev pub forgiven : AuthRow → AuthRow
forgiven r = record r { failed_attempts = 0; locked_until = none }

unfoldable pub clear_failures : Env → AuthRow → World → AuthRow × World
clear_failures env row w =
    if row.failed_attempts == 0 && (elim row.locked_until [ none ↦ true | some _ ↦ false ])
    then (row, w)
    else if env.fails clears_failures
    then (row, w)
    else (forgiven row, set_user row.id forgiven w)

abbrev pub is_some {ℓ} : {A : Type ℓ} → Option A → Bool
is_some o = elim o [ none ↦ false | some _ ↦ true ]

module _ (lib : Crates) where
  unfoldable pub should_enforce_for : AuthConfig → String → ℕ → Bool → Bool
  should_enforce_for config role tenant_id has_secret =
      if any (λ t. t == tenant_id) config.bypass_tenants
      then has_secret
      else if has_secret
      then true
      else if config.require_mfa
      then true
      else any (λ r. str_eq r (lib.to_ascii_lowercase role)) config.required_roles

  unfoldable pub requires_mfa : AuthConfig → AuthRow → Bool
  unfolding should_enforce_for
  requires_mfa config row =
      should_enforce_for config row.role row.tenant_id
        (is_some row.mfa_secret || is_some row.mfa_pending_secret)

-- A code that does not pass.
unfoldable pub refuse_code : Env → AuthRow → World → AuthError × World
unfolding saturating_add_i16
refuse_code env row w =
    let next_failed = saturating_add_i16 row.mfa_failed_attempts 1 in
    if leb max_failed_attempts next_failed
    then (
      account_locked (some (env.challenge_at + lockout_seconds)),
      if env.fails locks_mfa
          then w
          else set_user row.id
              (λ r. record r {
                mfa_failed_attempts = 0;
                locked_until = some (env.challenge_at + lockout_seconds);
                mfa_last_challenge_at = some env.challenge_at;
              })
              w,
    )
    else (
      mfa_invalid,
      if env.fails records_mfa
          then w
          else set_user row.id
              (λ r. record r {
                mfa_failed_attempts = next_failed;
                mfa_last_challenge_at = some env.challenge_at;
              })
              w,
    )

unfoldable pub accept_code : Env → AuthRow → World → World
accept_code env row w =
    if env.fails clears_mfa
    then w
    else set_user row.id
        (λ r. record r { mfa_failed_attempts = 0; mfa_last_challenge_at = some env.challenge_at }) w

unfoldable pub entered_code : LoginRequest → Option (List ℕ)
unfolding normalize_mfa_code
entered_code req = elim req.mfa_code [ none ↦ none | some c ↦ normalize_mfa_code (codes c) ]

module _ (lib : Crates) where
  unfoldable pub second_factor :
      Env → LoginRequest → AuthRow → World → Result AuthError (Unit {0}) × World
  unfolding entered_code verify_totp_code refuse_code accept_code
  second_factor env req row w = elim row.mfa_pending_secret [
    | some _ ↦ (err mfa_required, w)
    | none ↦ elim row.mfa_secret [
      | none ↦ (err mfa_not_enrolled, w)
      | some secret ↦ elim (entered_code req) [
        | none ↦ (err mfa_required, w)
        | some code ↦
            if verify_totp_code lib env.challenge_at secret code
            then (ok tt, accept_code env row w)
            else let (e, w') = refuse_code env row w in (err e, w')
      ]
    ]
  ]

  unfoldable pub subject_of : AuthRow → TokenSubject
  subject_of row = record { user_id = row.id; tenant_id = row.tenant_id; roles = row.role ∷ [] }

  -- The tokens, and the reply with the cookie.
  unfoldable pub sign_in : Env → AuthRow → World → Result AuthError LoginResponse × World
  unfolding subject_of issue_tokens
  sign_in env row w =
      let (issued, w') = issue_tokens lib env.signer (subject_of row) w in
      elim issued [
        | err e ↦ (err internal_error, w')
        | ok tokens ↦ if env.cookie_fails then (err internal_error, w') else (
          ok record {
            user_id = row.id;
            tenant_id = row.tenant_id;
            role = row.role;
            force_password_reset = row.force_password_reset;
            tokens = tokens;
          },
          w',
        )
      ]

  unfoldable pub after_password :
      Env → LoginRequest → AuthRow → World → Result AuthError LoginResponse × World
  unfolding clear_failures requires_mfa second_factor sign_in
  after_password env req row w =
      let (row', w') = clear_failures env row w in
      if requires_mfa lib env.config row'
      then (let (verdict, v) = second_factor env req row' w' in
          elim verdict [ err e ↦ (err e, v) | ok _ ↦ sign_in env row' v ])
      else sign_in env row' w'

  unfoldable pub login_row :
      Env → LoginRequest → AuthRow → World → Result AuthError LoginResponse × World
  unfolding reset_expired check_password refuse_password after_password
  login_row env req row w =
      if not row.is_active
      then (err account_inactive, w)
      else if is_locked env.now row
      then (err (account_locked row.locked_until), w)
      else let (row', w') = reset_expired env row w in
        let (checked, v) = check_password lib env req row' w' in
        elim checked [
          | err e ↦ (err e, v)
          | ok valid ↦ if valid then after_password env req row' v else refuse_password env row' v
        ]

  unfoldable pub login_user : Env → LoginRequest → World → Result AuthError LoginResponse × World
  unfolding find_user login_row
  login_user env req w =
      if env.fails finds_user then (err internal_error, w) else elim (find_user req w) [
        | none ↦ (err invalid_credentials, w)
        | some row ↦ login_row env req row w
      ]
