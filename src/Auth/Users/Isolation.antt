-- ===== src/Auth/Users/Isolation.antt =====
-- Whom an administrator reaches.
use text.Mathlib.Text.{◌==◌ as str_eq}
use peanut_pos.Base.{
  ℕ, String, ◌≡◌, ◌≢◌, refl, sym, ◌∙◌, inl, inr, Bool, true, false, Bool-cases, none, some,
  Option-cases, List, [], ◌∷◌, ◌++◌, ◌==◌, ==_iff, ==_refl, arith,
}
use peanut_pos.Base.Lists.{All}
use peanut_pos.Base.Table.{first, select, update}
use peanut_pos.Base.Api.{Result, ok, err, Result-cases}
use peanut_pos.Auth.Store.{AuthRow, World, Crates}
use peanut_pos.Auth.Login.{hash_password}
use peanut_pos.Auth.Users.{
  Env, Failure, NewUser, UpdateUserRequest, admitted, has_role, ensure_role_any, extract_tenant_id,
  ensure_tenant_access, validate_role, create_row, create_user, update_row, update_user, reset_row,
  reset_user_password, at, changed, write_changes, settle, new_user, taken, wanted_name,
  wanted_role,
}

-- The calls that write users.
pub data Call : Type 0 where
  create : NewUser → Call
  change : ℕ → UpdateUserRequest → Call
  reset : ℕ → String → Call

module _ (lib : Crates) where
  unfoldable pub serve : Env → Call → World → World
  unfolding create_user update_user reset_user_password
  serve env (create req) w = (create_user lib env req w).1
  serve env (change id req) w = (update_user lib env id req w).1
  serve env (reset id password) w = (reset_user_password lib env id password w).1

abbrev pub users_of : ℕ → List AuthRow → List AuthRow
users_of t users = select (λ r. r.tenant_id == t) users

-- Only the caller's own tenant passes the checks, unless the caller is a super administrator.
admitted-own :
    (env : Env) (allowed : List String) (t : ℕ)
    → has_role env.claims "super_admin" ≡ false
    → admitted env allowed ≡ ok t
    → t ≡ env.claims.tenant_id
unfolding admitted extract_tenant_id ensure_tenant_access
admitted-own env allowed t plain h = elim (Option-cases env.tenant) [
  | inl e ↦ ground arith
  | inr (u, e) ↦ ground arith
]

select-append :
    (p : AuthRow → Bool) (rs : List AuthRow) (r : AuthRow)
    → p r ≡ false
    → select p (rs ++ r ∷ []) ≡ select p rs
unfolding select
select-append p [] r h = ground arith
select-append p (x ∷ rs) r h = ground (arith, select-append p rs r h)

select-update :
    (p q : AuthRow → Bool) (f : AuthRow → AuthRow) (rs : List AuthRow)
    → ((r : AuthRow) → q r ≡ true → p r ≡ false)
    → ((r : AuthRow) → p (f r) ≡ p r)
    → select p (update q f rs) ≡ select p rs
unfolding select update
select-update p q f [] apart same = refl
select-update p q f (r ∷ rs) apart same =
    ground (arith, apart r, same r, select-update p q f rs apart same)

at-apart : (id t u : ℕ) → t ≢ u → (r : AuthRow) → at id t r ≡ true → (r.tenant_id == u) ≡ false
at-apart id t u ne r h = elim (Bool-cases (r.tenant_id == u)) [
  | inl e ↦ absurd (ne (ground arith))
  | inr e ↦ e
]

module _ (env : Env) (t : ℕ) where
  changed_tenant :
      (existing : AuthRow) (name role : String) (active : Bool) (r : AuthRow)
      → ((changed env existing name role active r).tenant_id == t) ≡ (r.tenant_id == t)
  unfolding changed
  changed_tenant existing name role active r = refl

abbrev reset_to : Env → String → AuthRow → AuthRow
reset_to env hash r = record r {
  password_hash = hash;
  updated_at = env.now;
  last_password_reset = some env.now;
  force_password_reset = true;
}

reset_tenant :
    (env : Env) (t : ℕ) (hash : String) (r : AuthRow)
    → ((reset_to env hash r).tenant_id == t) ≡ (r.tenant_id == t)
reset_tenant env t hash r = refl

module _ (lib : Crates) (env : Env) (t : ℕ) (other : t ≢ env.claims.tenant_id)
    (plain : has_role env.claims "super_admin" ≡ false) where
  apart : (own : ℕ) (allowed : List String) → admitted env allowed ≡ ok own → own ≢ t
  apart own allowed h e = other (sym e ∙ admitted-own env allowed own plain h)

  new_apart :
      (own : ℕ) (req : NewUser) (hash : String)
      → own ≢ t
      → ((new_user lib env own req hash).tenant_id == t) ≡ false
  unfolding new_user
  new_apart own req hash ne = elim (Bool-cases (own == t)) [
    | inl e ↦ absurd (ne ((==_iff own t).0 e))
    | inr e ↦ e
  ]

  create-others :
      (req : NewUser) (users users' : List AuthRow) (u : AuthRow)
      → create_row lib env req users ≡ ok (u, users')
      → users_of t users' ≡ users_of t users
  unfolding create_row
  create-others req users users' u h =
      elim (Result-cases (admitted env ("super_admin" ∷ "admin" ∷ []))) [
        | inl (e, k) ↦ absurd (ground arith)
        | inr (own, k) ↦ elim (Result-cases (hash_password lib env.salt req.password)) [
          | inl (e, d) ↦ absurd (ground arith)
          | inr (hash, d) ↦
              let row : users' ≡ users ++ new_user lib env own req hash ∷ [] = ground arith in
              rw row (
                select-append (λ r. r.tenant_id == t) users (new_user lib env own req hash)
                  (new_apart own req hash (apart own ("super_admin" ∷ "admin" ∷ []) k)))
        ]
      ]

  written-others :
      (id own : ℕ) (existing : AuthRow) (name role : String) (active : Bool)
      (users users' : List AuthRow) (u : AuthRow)
      → own ≢ t
      → write_changes env (at id own) existing name role active users ≡ ok (u, users')
      → users_of t users' ≡ users_of t users
  unfolding write_changes
  written-others id own existing name role active users users' u ne h =
      let kept : users_of t (update (at id own) (changed env existing name role active) users)
          ≡ users_of t users =
        select-update (λ r. r.tenant_id == t) (at id own) (changed env existing name role active)
          users (at-apart id own t ne) (changed_tenant env t existing name role active) in
      ground arith

  change-others :
      (id : ℕ) (req : UpdateUserRequest) (users users' : List AuthRow) (u : AuthRow)
      → update_row lib env id req users ≡ ok (u, users')
      → users_of t users' ≡ users_of t users
  unfolding update_row
  change-others id req users users' u h =
      elim (Result-cases (admitted env ("super_admin" ∷ "admin" ∷ []))) [
        | inl (e, k) ↦ absurd (ground arith)
        | inr (own, k) ↦ elim (Option-cases (first (at id own) users)) [
          | inl d ↦ absurd (ground arith)
          | inr (existing, d) ↦ elim (Result-cases (wanted_name lib req.name existing)) [
            | inl (e, f) ↦ absurd (ground arith)
            | inr (name, f) ↦ elim (Result-cases (wanted_role lib req.role existing)) [
              | inl (e, g) ↦ absurd (ground arith)
              | inr (role, g) ↦
                  written-others id own existing name role
                    (elim req.is_active [ none ↦ existing.is_active | some b ↦ b ]) users users' u
                    (apart own ("super_admin" ∷ "admin" ∷ []) k) (ground arith)
            ]
          ]
        ]
      ]

  reset-others :
      (id : ℕ) (password : String) (users users' : List AuthRow) (u : AuthRow)
      → reset_row lib env id password users ≡ ok (u, users')
      → users_of t users' ≡ users_of t users
  unfolding reset_row
  reset-others id password users users' u h =
      elim (Result-cases (admitted env ("super_admin" ∷ "admin" ∷ []))) [
        | inl (e, k) ↦ absurd (ground arith)
        | inr (own, k) ↦ elim (Result-cases (hash_password lib env.salt (lib.trim password))) [
          | inl (e, d) ↦ absurd (ground arith)
          | inr (hash, d) ↦
              let ne = apart own ("super_admin" ∷ "admin" ∷ []) k in
              let kept : users_of t (update (at id own) (reset_to env hash) users)
                  ≡ users_of t users =
                select-update (λ r. r.tenant_id == t) (at id own) (reset_to env hash) users
                  (at-apart id own t ne) (reset_tenant env t hash) in
              elim (Option-cases (first (at id own) users)) [
                | inl f ↦ absurd (ground arith)
                | inr (r, f) ↦
                    let row : users' ≡ update (at id own) (reset_to env hash) users =
                      ground arith in
                    rw row kept
              ]
        ]
      ]

  settled :
      (w : World) (r : Result Failure (AuthRow × List AuthRow))
      → ((u : AuthRow) (users' : List AuthRow)
          → r ≡ ok (u, users')
          → users_of t users' ≡ users_of t w.users)
      → users_of t (settle w r).1.users ≡ users_of t w.users
  settled w (ok (u, users')) kept = kept u users' refl
  settled w (err e) kept = refl

  serve-others : (c : Call) (w : World) → users_of t (serve lib env c w).users ≡ users_of t w.users
  unfolding serve create_user update_user reset_user_password
  serve-others (create req) w =
      settled w (create_row lib env req w.users)
        (λ u users' e. create-others req w.users users' u e)
  serve-others (change id req) w =
      settled w (update_row lib env id req w.users)
        (λ u users' e. change-others id req w.users users' u e)
  serve-others (reset id password) w =
      settled w (reset_row lib env id password w.users)
        (λ u users' e. reset-others id password w.users users' u e)

module _ (lib : Crates) where
  unfoldable pub run : List (Env × Call) → World → World
  unfolding serve
  run [] w = w
  run ((env, c) ∷ cs) w = run cs (serve lib env c w)

  -- Whatever users of other tenants do who are not super administrators, the users of a tenant stay
  -- exactly as they are: none is created, changed or given another password, whichever tenant the
  -- requests name.
  pub run-others :
      (t : ℕ) (cs : List (Env × Call)) (w : World)
      → All (λ c. (t ≢ c.0.claims.tenant_id) × (has_role c.0.claims "super_admin" ≡ false)) cs
      → users_of t (run cs w).users ≡ users_of t w.users
  unfolding run
  run-others t [] w h = refl
  run-others t ((env, c) ∷ cs) w ((other, plain), hs) =
      run-others t cs (serve lib env c w) hs ∙ serve-others lib env t other plain c w

admin_admitted :
    (env : Env)
    → has_role env.claims "admin" ≡ true
    → env.tenant ≡ some env.claims.tenant_id
    → admitted env ("super_admin" ∷ "admin" ∷ []) ≡ ok env.claims.tenant_id
unfolding admitted ensure_role_any extract_tenant_id ensure_tenant_access
admin_admitted env a b = elim (Bool-cases (has_role env.claims "super_admin")) [
  | inl e ↦ rw (b, e) refl
  | inr e ↦ rw (b, e, a, ==_refl env.claims.tenant_id) refl
]

super_valid : (role : String) → role ≡ "super_admin" → validate_role role ≡ ok tt
unfolding validate_role
super_valid role e = rw e refl

module _ (lib : Crates) where
  -- An administrator of a tenant makes a super administrator: the role that a new user is given is
  -- checked against the list of roles only, so where the request is well formed, the address is free
  -- and nothing fails, the new user is stored with the role that reaches every tenant.
  admin_makes_super_admin :
      (env : Env) (req : NewUser) (hash : String) (w : World)
      → has_role env.claims "admin" ≡ true
      → env.tenant ≡ some env.claims.tenant_id
      → str_eq (lib.trim req.name) "" ≡ false
      → str_eq (lib.trim req.email) "" ≡ false
      → lib.trim req.role ≡ "super_admin"
      → hash_password lib env.salt req.password ≡ ok hash
      → env.write_fails ≡ false
      → taken lib env.claims.tenant_id (lib.trim req.email) w.users ≡ false
      → (u : AuthRow) × (create_user lib env req w ≡ (ok u, record w { users = w.users ++ u ∷ [] }))
        × (u.role ≡ "super_admin")
        × (u.is_active ≡ true)
        × (u.tenant_id ≡ env.claims.tenant_id)
  unfolding create_user new_user create_row
  admin_makes_super_admin env req hash w a b c d e f g h = (
    new_user lib env env.claims.tenant_id req hash,
    ground (arith, admin_admitted env a b, super_valid (lib.trim req.role) e),
    e,
    refl,
    refl,
  )
