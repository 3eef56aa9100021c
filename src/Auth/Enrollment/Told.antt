-- ===== src/Auth/Enrollment/Told.antt =====
-- The secret of a user over the statements of a login, each of which leaves it.
use peanut_pos.Base.{
  ℕ, String, ◌≡◌, refl, subst, Bool, true, false, inl, inr, Bool-cases, Option-cases, leb, some,
  List, [], ◌∷◌, arith, ◌==◌, if◌then◌else◌,
}
use peanut_pos.Base.Lists.{All}
use peanut_pos.Base.Table.{update, first}
use peanut_pos.Auth.Store.{AuthRow, World, set_user}
use peanut_pos.Auth.Login
use peanut_pos.Auth.Login.{
  clear_failures, reset_expired, refuse_password, refuse_code, accept_code, max_failed_attempts,
  saturating_add_i16,
}
use peanut_pos.Auth.Enrollment
use peanut_pos.Auth.Enrollment.{enrolled_with}

-- Whose rows hold the secret.
abbrev pub Told : ℕ → String → AuthRow → Type 0
Told id secret row = row.id ≡ id → row.mfa_secret ≡ some secret

abbrev pub AllTold : ℕ → String → World → Type 0
AllTold id secret w = All (Told id secret) w.users

module _ (id : ℕ) (secret : String) where
  update-Told :
      (p : AuthRow → Bool) (f : AuthRow → AuthRow) (rows : List AuthRow)
      → ((r : AuthRow) → Told id secret r → Told id secret (f r))
      → All (Told id secret) rows
      → All (Told id secret) (update p f rows)
  unfolding update
  update-Told p f [] keeps h = tt
  update-Told p f (r ∷ rows) keeps (h, hs) = elim (Bool-cases (p r)) [
    | inl e ↦ rw e (keeps r h, update-Told p f rows keeps hs)
    | inr e ↦ rw e (h, update-Told p f rows keeps hs)
  ]

  pub first-Told :
      (p : AuthRow → Bool) (rows : List AuthRow) (row : AuthRow)
      → All (Told id secret) rows
      → first p rows ≡ some row
      → Told id secret row
  unfolding first
  first-Told p [] row h found = absurd (ground arith)
  first-Told p (r ∷ rows) row (h, hs) found = elim (Bool-cases (p r)) [
    | inl e ↦ let same : r ≡ row = ground arith in subst (Told id secret) same h
    | inr e ↦ first-Told p rows row hs (ground arith)
  ]

  pub set_user-Told :
      (uid : ℕ) (f : AuthRow → AuthRow) (w : World)
      → ((r : AuthRow) → Told id secret r → Told id secret (f r))
      → AllTold id secret w
      → AllTold id secret (set_user uid f w)
  unfolding set_user
  set_user-Told uid f w keeps h = update-Told (λ r. r.id == uid) f w.users keeps h

  -- A statement that the database may refuse.
  pub unless-Told :
      (refused : Bool) (w v : World)
      → AllTold id secret w
      → AllTold id secret v
      → AllTold id secret (if refused then w else v)
  unless-Told true w v h k = h
  unless-Told false w v h k = k

  pub reset-Told :
      (env : Login.Env) (row : AuthRow) (w : World)
      → AllTold id secret w
      → AllTold id secret (reset_expired env row w).1
  unfolding reset_expired
  reset-Told env row w h = elim (Option-cases row.locked_until) [
    | inl e ↦ rw e h
    | inr (until, e) ↦ elim (Bool-cases (env.fails Login.resets_lockout)) [
      | inl d ↦ rw (e, d) h
      | inr d ↦ rw (e, d) (set_user-Told row.id Login.unlocked w (λ r k. k) h)
    ]
  ]

  pub cleared-Told :
      (env : Login.Env) (row : AuthRow) (w : World)
      → AllTold id secret w
      → AllTold id secret (clear_failures env row w).1
  unfolding clear_failures
  cleared-Told env row w h = elim (Bool-cases (row.failed_attempts == 0)) [
    | inl a ↦ elim (Option-cases row.locked_until) [
      | inl e ↦ rw (a, e) h
      | inr (until, e) ↦ elim (Bool-cases (env.fails Login.clears_failures)) [
        | inl d ↦ rw (a, e, d) h
        | inr d ↦ rw (a, e, d) (set_user-Told row.id Login.forgiven w (λ r k. k) h)
      ]
    ]
    | inr a ↦ elim (Bool-cases (env.fails Login.clears_failures)) [
      | inl d ↦ rw (a, d) h
      | inr d ↦ rw (a, d) (set_user-Told row.id Login.forgiven w (λ r k. k) h)
    ]
  ]

  pub refused-Told :
      (env : Login.Env) (row : AuthRow) (w : World)
      → AllTold id secret w
      → AllTold id secret (refuse_password env row w).1
  unfolding refuse_password
  refused-Told env row w h =
      unless-Told (env.fails Login.records_failure) w (set_user row.id _ w) h
        (set_user-Told row.id _ w (λ r k. k) h)

  pub code_refused-Told :
      (env : Login.Env) (row : AuthRow) (w : World)
      → AllTold id secret w
      → AllTold id secret (refuse_code env row w).1
  unfolding refuse_code
  code_refused-Told env row w h =
      elim (Bool-cases (leb max_failed_attempts (saturating_add_i16 row.mfa_failed_attempts 1))) [
        | inl e ↦ rw e (
            unless-Told (env.fails Login.locks_mfa) w (set_user row.id _ w) h
              (set_user-Told row.id _ w (λ r k. k) h))
        | inr e ↦ rw e (
            unless-Told (env.fails Login.records_mfa) w (set_user row.id _ w) h
              (set_user-Told row.id _ w (λ r k. k) h))
      ]

  pub accepted-Told :
      (env : Login.Env) (row : AuthRow) (w : World)
      → AllTold id secret w
      → AllTold id secret (accept_code env row w)
  unfolding accept_code
  accepted-Told env row w h =
      unless-Told (env.fails Login.clears_mfa) w (set_user row.id _ w) h
        (set_user-Told row.id _ w (λ r k. k) h)

  -- Once verified, every row of the user holds the secret.
  pub verified-Told :
      (env : Enrollment.Env) (w : World)
      → env.user_id ≡ id
      → AllTold id secret (set_user env.user_id (enrolled_with secret env.now) w)
  unfolding set_user
  verified-Told env w same = by_rows w.users
    where
      by_rows :
          (rows : List AuthRow)
          → All
              (Told id secret)
              (update (λ r. r.id == env.user_id) (enrolled_with secret env.now) rows)
      by_rows [] = tt
      by_rows (r ∷ rows) = elim (Bool-cases (r.id == env.user_id)) [
        | inl e ↦ rw e (λ k. refl, by_rows rows)
        | inr e ↦ rw e (λ k. absurd (ground arith), by_rows rows)
      ]
