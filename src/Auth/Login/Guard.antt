-- ===== src/Auth/Login/Guard.antt =====
-- What a login that succeeds has passed.
use peanut_pos.Base.{
  ℕ, String, ◌≡◌, refl, sym, subst, ◌∙◌, ◌⊎◌, inl, inr, true, false, Bool-cases, none, some,
  Option-cases, List, arith,
}
use peanut_pos.Base.Api.{ok, Result-cases}
use text.Mathlib.Text.{◌==◌ as str_eq}
use peanut_pos.Auth.Store.{AuthRow, World, Crates}
use peanut_pos.Auth.Mfa.{verify_totp_code}
use peanut_pos.Auth.Login.{
  LoginRequest, LoginResponse, Env, find_user, is_locked, reset_expired, check_password,
  clear_failures, requires_mfa, second_factor, entered_code, after_password, login_row, login_user,
  refuse_password,
}

-- The password is the one stored: it matches the hash, or the text that stands where a hash should.
abbrev pub Knows : Crates → String → AuthRow → Type 0
Knows lib password row =
    ((lib.is_phc row.password_hash ≡ true) × (lib.argon2_verify row.password_hash password ≡ true))
    ⊎ ((lib.is_phc row.password_hash ≡ false) × (str_eq row.password_hash password ≡ true))

-- A confirmed secret, none awaiting confirmation, and a code of it.
pub record Possesses (lib : Crates) (env : Env) (req : LoginRequest) (row : AuthRow) : Type 0 where
  pub secret : String
  pub code : List ℕ
  pub settled : row.mfa_pending_secret ≡ none
  pub enrolled : row.mfa_secret ≡ some secret
  pub entered : entered_code req ≡ some code
  pub verified : verify_totp_code lib env.challenge_at secret code ≡ true

module _ (lib : Crates) (env : Env) (req : LoginRequest) where
  second_factor-Possesses :
      (row : AuthRow) (w : World) (u : Unit)
      → (second_factor lib env req row w).0 ≡ ok u
      → Possesses lib env req row
  unfolding second_factor
  second_factor-Possesses row w u h = elim (Option-cases row.mfa_pending_secret) [
    | inr (p, e) ↦ absurd (ground arith)
    | inl settled ↦ elim (Option-cases row.mfa_secret) [
      | inl e ↦ absurd (ground arith)
      | inr (secret, enrolled) ↦ elim (Option-cases (entered_code req)) [
        | inl e ↦ absurd (ground arith)
        | inr (code, entered) ↦
            elim (Bool-cases (verify_totp_code lib env.challenge_at secret code)) [
              | inr e ↦ absurd (ground arith)
              | inl verified ↦ record {
                secret = secret;
                code = code;
                settled = settled;
                enrolled = enrolled;
                entered = entered;
                verified = verified;
              }
            ]
      ]
    ]
  ]

  -- Two rows with the same secrets.
  Possesses-same :
      (row row' : AuthRow)
      → row'.mfa_pending_secret ≡ row.mfa_pending_secret
      → row'.mfa_secret ≡ row.mfa_secret
      → Possesses lib env req row'
      → Possesses lib env req row
  Possesses-same row row' same same' p = record {
    secret = p.secret;
    code = p.code;
    settled = sym same ∙ p.settled;
    enrolled = sym same' ∙ p.enrolled;
    entered = p.entered;
    verified = p.verified;
  }

  cleared_same :
      (row : AuthRow) (w : World)
      → ((clear_failures env row w).0.mfa_pending_secret ≡ row.mfa_pending_secret)
        × ((clear_failures env row w).0.mfa_secret ≡ row.mfa_secret)
        × ((clear_failures env row w).0.role ≡ row.role)
        × ((clear_failures env row w).0.tenant_id ≡ row.tenant_id)
  unfolding clear_failures
  cleared_same row w = ground arith

  reset_same :
      (row : AuthRow) (w : World)
      → ((reset_expired env row w).0.mfa_pending_secret ≡ row.mfa_pending_secret)
        × ((reset_expired env row w).0.mfa_secret ≡ row.mfa_secret)
        × ((reset_expired env row w).0.role ≡ row.role)
        × ((reset_expired env row w).0.tenant_id ≡ row.tenant_id)
        × ((reset_expired env row w).0.password_hash ≡ row.password_hash)
  unfolding reset_expired
  reset_same row w = ground arith

  requires_same :
      (row row' : AuthRow)
      → (row'.mfa_pending_secret ≡ row.mfa_pending_secret)
        × (row'.mfa_secret ≡ row.mfa_secret)
        × (row'.role ≡ row.role)
        × (row'.tenant_id ≡ row.tenant_id)
      → requires_mfa lib env.config row' ≡ requires_mfa lib env.config row
  unfolding requires_mfa
  requires_same row row' (a, b, c, d) = rw (a, b, c, d) refl

  after_password-Possesses :
      (row : AuthRow) (w : World) (r : LoginResponse)
      → (after_password lib env req row w).0 ≡ ok r
      → requires_mfa lib env.config row ≡ true
      → Possesses lib env req row
  unfolding after_password
  after_password-Possesses row w r h needed =
      let needed' : requires_mfa lib env.config (clear_failures env row w).0 ≡ true =
        requires_same row (clear_failures env row w).0 (cleared_same row w) ∙ needed in
      let (a, b, c, d) = cleared_same row w in
      elim (Result-cases
        (second_factor lib env req (clear_failures env row w).0 (clear_failures env row w).1).0) [
          | inl (e, k) ↦ absurd (ground arith)
          | inr (u, k) ↦ Possesses-same row (clear_failures env row w).0 a b (
              second_factor-Possesses (clear_failures env row w).0 (clear_failures env row w).1 u k)
        ]

  check_password-Knows :
      (row : AuthRow) (w : World)
      → (check_password lib env req row w).0 ≡ ok true
      → Knows lib req.password row
  unfolding check_password
  check_password-Knows row w h = elim (Bool-cases (lib.is_phc row.password_hash)) [
    | inl e ↦ inl (e, ground arith)
    | inr e ↦ elim (Bool-cases (str_eq row.password_hash req.password)) [
      | inl d ↦ inr (e, d)
      | inr d ↦ absurd (ground arith)
    ]
  ]

-- What the login of a user has passed, before any token is issued.
pub record Passed (lib : Crates) (env : Env) (req : LoginRequest) (w : World) : Type 0 where
  pub row : AuthRow
  pub found : find_user req w ≡ some row
  pub active : row.is_active ≡ true
  pub free : is_locked env.now row ≡ false
  pub knows : Knows lib req.password row
  pub possesses : requires_mfa lib env.config row ≡ true → Possesses lib env req row

module _ (lib : Crates) (env : Env) (req : LoginRequest) where
  Knows-same :
      (row row' : AuthRow)
      → row'.password_hash ≡ row.password_hash
      → Knows lib req.password row'
      → Knows lib req.password row
  Knows-same row row' same k =
      subst
        (λ h.
          ((lib.is_phc h ≡ true) × (lib.argon2_verify h req.password ≡ true))
          ⊎ ((lib.is_phc h ≡ false) × (str_eq h req.password ≡ true)))
        same k

  -- A row whose password is checked, with what the check answers.
  login_row-passed :
      (row : AuthRow) (w : World) (r : LoginResponse)
      → (login_row lib env req row w).0 ≡ ok r
      → (row.is_active ≡ true)
        × (is_locked env.now row ≡ false)
        × ((check_password lib env req (reset_expired env row w).0 (reset_expired env row w).1).0
            ≡ ok true)
        × ((after_password lib env req
              (reset_expired env row w).0
              (check_password lib env req
                (reset_expired env row w).0
                (reset_expired env row w).1).1).0
            ≡ ok r)
  unfolding login_row refuse_password
  login_row-passed row w r h = ground arith

  -- A login answers with tokens only where a user of that address (and of that tenant, if one is
  -- named) is found who is active and not locked, the password is the stored one, and, where the
  -- configuration or an enrolled secret asks for a second factor, no secret awaits confirmation and
  -- the entered code is one of the confirmed secret.
  pub login_user-Passed :
      (w : World) (r : LoginResponse) → (login_user lib env req w).0 ≡ ok r → Passed lib env req w
  unfolding login_user
  login_user-Passed w r h = elim (Option-cases (find_user req w)) [
    | inl e ↦ absurd (ground arith)
    | inr (row, e) ↦
        let k : (login_row lib env req row w).0 ≡ ok r = ground arith in
        let (active, free, valid, rest) = login_row-passed row w r k in
        let (a, b, c, d, p) = reset_same lib env req row w in
        record {
          row = row;
          found = e;
          active = active;
          free = free;
          knows = Knows-same row (reset_expired env row w).0 p (
              check_password-Knows lib env req (reset_expired env row w).0
                (reset_expired env row w).1 valid);
          possesses = λ needed. Possesses-same lib env req row (reset_expired env row w).0 a b (
              after_password-Possesses lib env req (reset_expired env row w).0
                (check_password lib env req (reset_expired env row w).0
                  (reset_expired env row w).1).1
                r rest
                (requires_same lib env req row (reset_expired env row w).0 (a, b, c, d) ∙ needed));
        }
  ]
