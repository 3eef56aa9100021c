-- ===== src/Auth/Login/Lockout.antt =====
-- The lock of an account against guessed passwords.
use text.Mathlib.Text.{◌==◌ as str_eq}
use peanut_pos.Base.{
  ℕ, ◌+◌, ◌≤◌, ◌<◌, ◌≡◌, refl, subst, ◌∙◌, ◌⊎◌, inl, inr, true, false, Bool-cases, lt→ltb, none,
  some, List, [], ◌∷◌, arith, ◌==◌, ==_refl, ltb,
}
use peanut_pos.Base.Lists.{length, All}
use peanut_pos.Base.Table.{first-update_hit}
use peanut_pos.Base.Api.{ok, err}
use peanut_pos.Auth.Store.{AuthRow, World, Crates, set_user, account_locked}
use peanut_pos.Auth.Login.{
  LoginRequest, Env, finds_user, records_failure, find_user, asked_for, reset_expired,
  check_password, refuse_password, lock_after, saturating_add_i16, login_row, login_user,
  lockout_seconds, max_failed_attempts,
}
use peanut_pos.Auth.Login.Guard.{Knows}

module _ (lib : Crates) where
  unfoldable pub run_logins : List (Env × LoginRequest) → World → World
  unfolding login_user
  run_logins [] w = w
  run_logins ((env, req) ∷ rest) w = run_logins rest (login_user lib env req w).1

-- A login for the account of another request, in the fifteen minutes from an instant.
pub record SameAccount (start : ℕ) (req : LoginRequest) (env : Env) (req' : LoginRequest)
    : Type 0 where
  pub address : req'.email ≡ req.email
  pub tenant : req'.tenant_id ≡ req.tenant_id
  pub late : start ≤ env.now
  pub early : env.now < start + lockout_seconds
  pub reads : env.fails finds_user ≡ false

-- A password that is not the stored one, whose failure is recorded.
pub record WrongGuess (lib : Crates) (start : ℕ) (req : LoginRequest) (row : AuthRow)
    (g : Env × LoginRequest) : Type 0 where
  pub same : SameAccount start req g.0 g.1
  pub wrong : ¬ Knows lib g.1.password row
  pub writes : g.0.fails records_failure ≡ false

-- Where the account stands: unlocked with its count of failures, or locked to the window's end.
data Standing (start count : ℕ) (row : AuthRow) : Type 0 where
  counting :
      row.locked_until ≡ none
      → row.failed_attempts ≡ count
      → count < max_failed_attempts
      → Standing start count row
  locked :
      (until : ℕ)
      → row.locked_until ≡ some until
      → start + lockout_seconds ≤ until
      → Standing start count row

record Tracked (req : LoginRequest) (row₀ : AuthRow) (start count : ℕ) (w : World) : Type 0 where
  row : AuthRow
  found : find_user req w ≡ some row
  hash : row.password_hash ≡ row₀.password_hash
  active : row.is_active ≡ true
  standing : Standing start count row

find_user-same :
    (req req' : LoginRequest) (w : World)
    → req'.email ≡ req.email
    → req'.tenant_id ≡ req.tenant_id
    → find_user req' w ≡ find_user req w
unfolding find_user
find_user-same req req' w e t = rw (e, t) refl

module _ (lib : Crates) (start : ℕ) (req : LoginRequest) where
  locked_refused :
      (env : Env) (req' : LoginRequest) (row : AuthRow) (until : ℕ) (w : World)
      → find_user req w ≡ some row
      → row.is_active ≡ true
      → row.locked_until ≡ some until
      → start + lockout_seconds ≤ until
      → SameAccount start req env req'
      → login_user lib env req' w ≡ (err (account_locked (some until)), w)
  unfolding login_user login_row
  locked_refused env req' row until w found active lock long same =
      let found' = find_user-same req req' w same.address same.tenant ∙ found in
      rw (same.reads, found', active, lock, lt→ltb env.now until (omega arith)) refl

  wrong_check :
      (env : Env) (req' : LoginRequest) (row : AuthRow) (w : World)
      → ¬ Knows lib req'.password row
      → check_password lib env req' row w ≡ (ok false, w)
  unfolding check_password
  wrong_check env req' row w wrong = elim (Bool-cases (lib.is_phc row.password_hash)) [
    | inl e ↦ elim (Bool-cases (lib.argon2_verify row.password_hash req'.password)) [
      | inl d ↦ absurd (wrong (inl (e, d)))
      | inr d ↦ ground arith
    ]
    | inr e ↦ elim (Bool-cases (str_eq row.password_hash req'.password)) [
      | inl d ↦ absurd (wrong (inr (e, d)))
      | inr d ↦ ground arith
    ]
  ]

  not_reset :
      (env : Env) (row : AuthRow) (w : World)
      → row.locked_until ≡ none
      → reset_expired env row w ≡ (row, w)
  unfolding reset_expired
  not_reset env row w free = ground arith

  unlocked_guess :
      (env : Env) (req' : LoginRequest) (row : AuthRow) (w : World)
      → find_user req w ≡ some row
      → row.is_active ≡ true
      → row.locked_until ≡ none
      → ¬ Knows lib req'.password row
      → SameAccount start req env req'
      → login_user lib env req' w ≡ refuse_password env row w
  unfolding login_user login_row
  unlocked_guess env req' row w found active free wrong same = ground (
    arith,
    find_user-same req req' w same.address same.tenant,
    not_reset env row w free,
    wrong_check env req' row w wrong,
    same.reads,
  )

  refused_row :
      (env : Env) (row : AuthRow) (w : World)
      → find_user req w ≡ some row
      → env.fails records_failure ≡ false
      → find_user req (refuse_password env row w).1
        ≡ some (record row {
          failed_attempts = saturating_add_i16 row.failed_attempts 1;
          locked_until = lock_after env.now (saturating_add_i16 row.failed_attempts 1);
        })
  unfolding find_user refuse_password set_user
  refused_row env row w found writes =
      rw (writes, refuse_password)
        (first-update_hit (asked_for req) (λ r. r.id == row.id)
          (λ r. record r {
            failed_attempts = saturating_add_i16 row.failed_attempts 1;
            locked_until = lock_after env.now (saturating_add_i16 row.failed_attempts 1);
          })
          w.users row (λ r. refl) found (==_refl row.id))

  counted_on :
      (now count : ℕ) (row : AuthRow)
      → row.failed_attempts ≡ count
      → count < max_failed_attempts
      → start ≤ now
      → Standing start (count + 1) (record row {
        failed_attempts = saturating_add_i16 row.failed_attempts 1;
        locked_until = lock_after now (saturating_add_i16 row.failed_attempts 1);
      })
  unfolding saturating_add_i16 lock_after
  counted_on now count row e few late = elim (Bool-cases (ltb (count + 1) max_failed_attempts)) [
    | inl below ↦ counting (ground arith) (ground arith) (ground arith)
    | inr reached ↦ locked (now + lockout_seconds) (ground arith) (omega arith)
  ]

  step-Tracked :
      (row₀ : AuthRow) (count : ℕ) (g : Env × LoginRequest) (w : World)
      → WrongGuess lib start req row₀ g
      → Tracked req row₀ start count w
      → Tracked req row₀ start (count + 1) (login_user lib g.0 g.1 w).1
  step-Tracked row₀ count (env, req') w guess t = by_standing t.standing
    where
      wrong' : ¬ Knows lib req'.password t.row
      wrong' k = guess.wrong (
          subst
            (λ h.
              ((lib.is_phc h ≡ true) × (lib.argon2_verify h req'.password ≡ true))
              ⊎ ((lib.is_phc h ≡ false) × (str_eq h req'.password ≡ true)))
            t.hash k)

      by_standing :
          Standing start count t.row
          → Tracked req row₀ start (count + 1) (login_user lib env req' w).1
      by_standing (locked until lock long) =
          rw (locked_refused env req' t.row until w t.found t.active lock long guess.same) (record {
            row = t.row;
            found = t.found;
            hash = t.hash;
            active = t.active;
            standing = locked until lock long;
          })
      by_standing (counting free e few) =
          rw (unlocked_guess env req' t.row w t.found t.active free wrong' guess.same) (record {
            row = record t.row {
              failed_attempts = saturating_add_i16 t.row.failed_attempts 1;
              locked_until = lock_after env.now (saturating_add_i16 t.row.failed_attempts 1);
            };
            found = refused_row env t.row w t.found guess.writes;
            hash = t.hash;
            active = t.active;
            standing = counted_on env.now count t.row e few guess.same.late;
          })

  run-Tracked :
      (row₀ : AuthRow) (count : ℕ) (gs : List (Env × LoginRequest)) (w : World)
      → All (WrongGuess lib start req row₀) gs
      → Tracked req row₀ start count w
      → Tracked req row₀ start (count + length gs) (run_logins lib gs w)
  unfolding run_logins
  run-Tracked row₀ count [] w h t = subst (λ n. Tracked req row₀ start n w) (omega arith) t
  run-Tracked row₀ count ((env, req') ∷ gs) w (h, hs) t =
      subst (λ n. Tracked req row₀ start n (run_logins lib gs (login_user lib env req' w).1))
        (omega arith)
        (run-Tracked row₀ (count + 1) gs (login_user lib env req' w).1 hs
          (step-Tracked row₀ count (env, req') w h t))

-- Five recorded wrong passwords lock the account: counting those that its row held before, once five
-- are reached within fifteen minutes every further login for the account in those fifteen minutes is
-- refused as locked and changes nothing, with the right password too.
pub guesses_lock :
    (lib : Crates) (start : ℕ) (req : LoginRequest) (row : AuthRow) (w : World)
    (gs : List (Env × LoginRequest)) (env : Env) (req' : LoginRequest)
    → find_user req w ≡ some row
    → row.is_active ≡ true
    → row.locked_until ≡ none
    → row.failed_attempts < max_failed_attempts
    → max_failed_attempts ≤ row.failed_attempts + length gs
    → All (WrongGuess lib start req row) gs
    → SameAccount start req env req'
    → (until : ℕ) × (start + lockout_seconds ≤ until)
      × (login_user lib env req' (run_logins lib gs w)
          ≡ (err (account_locked (some until)), run_logins lib gs w))
guesses_lock lib start req row w gs env req' found active free few enough wrong same =
    by_standing t t.standing
  where
    t : Tracked req row start (row.failed_attempts + length gs) (run_logins lib gs w)
    t = run-Tracked lib start req row row.failed_attempts gs w wrong record {
      row = row;
      found = found;
      hash = refl;
      active = active;
      standing = counting free refl few;
    }

    by_standing :
        (t : Tracked req row start (row.failed_attempts + length gs) (run_logins lib gs w))
        → Standing start (row.failed_attempts + length gs) t.row
        → (until : ℕ) × (start + lockout_seconds ≤ until)
          × (login_user lib env req' (run_logins lib gs w)
              ≡ (err (account_locked (some until)), run_logins lib gs w))
    by_standing t (counting f e less) = absurd (omega arith)
    by_standing t (locked until lock long) = (
      until,
      long,
      locked_refused lib start req env req' t.row until (run_logins lib gs w) t.found t.active lock
          long same,
    )
