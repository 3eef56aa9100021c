-- ===== src/Auth/Users.antt =====
-- services/auth-service/src/user_handlers.rs: the handlers by which administrators keep users. Errors
-- are a status and a message. `trim` and the hash stand for other crates, as in the store. A text's
-- length is counted in characters, where the source counts bytes.
pub mod Isolation
mod Tests
use Prim.Native.String.{len}
use text.Mathlib.Text.{◌==◌ as str_eq}
use peanut_pos.Base.{
  ℕ, String, Bool, true, not, ◌&&◌, ◌||◌, Option, none, some, List, [], ◌∷◌, ◌++◌, ◌==◌, ltb,
  if◌then◌else◌,
}
use peanut_pos.Base.Lists.{any}
use peanut_pos.Base.Table.{first, select, update}
use peanut_pos.Base.Api.{Result, ok, err}
use peanut_pos.Security.Guards.{Claims}
use peanut_pos.Auth.Store.{AuthRow, World, Crates}
use peanut_pos.Auth.Login.{hash_password}

abbrev pub Failure : Type 0
Failure = ℕ × String

pub record NewUser : Type 0 where
  pub name : String
  pub email : String
  pub password : String
  pub role : String

pub record UpdateUserRequest : Type 0 where
  pub name : Option String
  pub role : Option String
  pub is_active : Option Bool

-- The caller, the X-Tenant-ID header where it is an identifier, and what a call draws or meets.
pub record Env : Type 0 where
  pub claims : Claims
  pub tenant : Option ℕ
  pub new_id : ℕ
  pub salt : ℕ
  pub now : ℕ
  pub read_fails : Bool
  pub write_fails : Bool

abbrev pub allowed_roles : List String
allowed_roles = "super_admin" ∷ "admin" ∷ "manager" ∷ "cashier" ∷ []

abbrev pub has_role : Claims → String → Bool
has_role c role = any (λ value. str_eq value role) c.roles

unfoldable pub ensure_role_any : Claims → List String → Result Failure (Unit {0})
ensure_role_any c allowed =
    if any (λ role. has_role c role) allowed then ok tt else err (403, "Insufficient role")

unfoldable pub extract_tenant_id : Option ℕ → Result Failure ℕ
extract_tenant_id none = err (400, "Invalid or missing X-Tenant-ID header")
extract_tenant_id (some id) = ok id

unfoldable pub ensure_tenant_access : Claims → ℕ → Result Failure (Unit {0})
ensure_tenant_access c tenant_id =
    if has_role c "super_admin" || (c.tenant_id == tenant_id)
    then ok tt
    else err (403, "You are not permitted to manage another tenant.")

unfoldable pub validate_role : String → Result Failure (Unit {0})
validate_role role =
    if any (λ r. str_eq r role) allowed_roles then ok tt else err (400, "Unsupported role")

infixl 5 ◌>>=◌ ◌>>◌
abbrev pub ◌>>=◌ : {A B : Type 0} → Result Failure A → (A → Result Failure B) → Result Failure B
m >>= f = elim m [ ok a ↦ f a | err e ↦ err e ]

abbrev pub ◌>>◌ : {A B : Type 0} → Result Failure A → Result Failure B → Result Failure B
m >> n = m >>= λ _. n

abbrev pub require : Bool → Failure → Result Failure (Unit {0})
require b e = if b then ok tt else err e

-- The checks with which each handler starts.
unfoldable pub admitted : Env → List String → Result Failure ℕ
unfolding ensure_role_any extract_tenant_id ensure_tenant_access
admitted env allowed = do
  ensure_role_any env.claims allowed
  tenant_id ← extract_tenant_id env.tenant
  ensure_tenant_access env.claims tenant_id
  ok tenant_id

-- A handler that fails leaves the table; one that succeeds answers with a user and the new table.
abbrev pub settle : World → Result Failure (AuthRow × List AuthRow) → Result Failure AuthRow × World
settle w r = elim r [ err e ↦ (err e, w) | ok (u, users) ↦ (ok u, record w { users = users }) ]

module _ (lib : Crates) where
  unfoldable pub new_user : Env → ℕ → NewUser → String → AuthRow
  new_user env tenant_id req hash = record {
    id = env.new_id;
    tenant_id = tenant_id;
    name = lib.trim req.name;
    email = lib.trim req.email;
    role = lib.trim req.role;
    is_active = true;
    password_hash = hash;
    failed_attempts = 0;
    locked_until = none;
    updated_at = env.now;
    last_password_reset = none;
    force_password_reset = true;
    mfa_secret = none;
    mfa_pending_secret = none;
    mfa_enrolled_at = none;
    mfa_failed_attempts = 0;
    mfa_last_challenge_at = none;
  }

  -- UNIQUE (tenant_id, email).
  unfoldable pub taken : ℕ → String → List AuthRow → Bool
  taken tenant_id email users = any (λ r. (r.tenant_id == tenant_id) && str_eq r.email email) users

  unfoldable pub create_row : Env → NewUser → List AuthRow → Result Failure (AuthRow × List AuthRow)
  unfolding admitted validate_role hash_password new_user taken
  create_row env req users = do
    tenant_id ← admitted env ("super_admin" ∷ "admin" ∷ [])
    require (not (str_eq (lib.trim req.name) "")) (400, "Name must not be empty")
    require (not (str_eq (lib.trim req.email) "")) (400, "Email must not be empty")
    validate_role (lib.trim req.role)
    hash ← hash_password lib env.salt req.password
    require (not (env.write_fails || taken tenant_id (lib.trim req.email) users))
        (500, "Database error")
    ok (new_user env tenant_id req hash, users ++ new_user env tenant_id req hash ∷ [])

  unfoldable pub create_user : Env → NewUser → World → Result Failure AuthRow × World
  unfolding create_row
  create_user env req w = settle w (create_row env req w.users)

-- The order by name is left out.
unfoldable pub list_users : Env → World → Result Failure (List AuthRow)
unfolding admitted select
list_users env w = do
  tenant_id ← admitted env ("super_admin" ∷ "admin" ∷ "manager" ∷ [])
  require (not env.read_fails) (500, "Database error")
  ok (select (λ r. r.tenant_id == tenant_id) w.users)

abbrev pub at : ℕ → ℕ → AuthRow → Bool
at id tenant_id r = (r.id == id) && (r.tenant_id == tenant_id)

module _ (lib : Crates) where
  unfoldable pub wanted_name : Option String → AuthRow → Result Failure String
  wanted_name none existing = ok existing.name
  wanted_name (some name) existing =
      if str_eq (lib.trim name) "" then err (400, "Name must not be empty") else ok (lib.trim name)

  unfoldable pub wanted_role : Option String → AuthRow → Result Failure String
  unfolding validate_role
  wanted_role none existing = ok existing.role
  wanted_role (some role) existing = do
    require (not (str_eq (lib.trim role) "")) (400, "Role must not be empty")
    validate_role (lib.trim role)
    ok (lib.trim role)

  abbrev pub wanted_active : Option Bool → AuthRow → Bool
  wanted_active o existing = elim o [ none ↦ existing.is_active | some b ↦ b ]

abbrev pub same_bool : Bool → Bool → Bool
same_bool a b = if a then b else not b

-- A field that does not change is not in the UPDATE.
unfoldable pub changed : Env → AuthRow → String → String → Bool → AuthRow → AuthRow
changed env existing name role active r = record r {
  name = if str_eq name existing.name then r.name else name;
  role = if str_eq role existing.role then r.role else role;
  is_active = if same_bool active existing.is_active then r.is_active else active;
  updated_at = env.now;
}

unfoldable pub write_changes :
    Env
    → (AuthRow → Bool)
    → AuthRow
    → String
    → String
    → Bool
    → List AuthRow
    → Result Failure (AuthRow × List AuthRow)
unfolding changed update
write_changes env here existing name role active users =
    if str_eq name existing.name && str_eq role existing.role && same_bool active existing.is_active
    then ok (existing, users)
    else if env.write_fails
    then err (500, "Database error")
    else ok (
      changed env existing name role active existing,
      update here (changed env existing name role active) users,
    )

module _ (lib : Crates) where
  unfoldable pub update_row :
      Env → ℕ → UpdateUserRequest → List AuthRow → Result Failure (AuthRow × List AuthRow)
  unfolding admitted first wanted_name wanted_role write_changes
  update_row env user_id req users = do
    tenant_id ← admitted env ("super_admin" ∷ "admin" ∷ [])
    require (not env.read_fails) (500, "Database error")
    existing ← elim (first (at user_id tenant_id) users) [
      | none ↦ err (404, "User not found")
      | some r ↦ ok r
    ]
    name ← wanted_name lib req.name existing
    role ← wanted_role lib req.role existing
    write_changes env (at user_id tenant_id) existing name role
        (wanted_active lib req.is_active existing) users

  unfoldable pub update_user : Env → ℕ → UpdateUserRequest → World → Result Failure AuthRow × World
  unfolding update_row
  update_user env user_id req w = settle w (update_row env user_id req w.users)

  unfoldable pub reset_row :
      Env → ℕ → String → List AuthRow → Result Failure (AuthRow × List AuthRow)
  unfolding admitted first update hash_password
  reset_row env user_id password users = do
    tenant_id ← admitted env ("super_admin" ∷ "admin" ∷ [])
    require (not (str_eq (lib.trim password) "")) (400, "Password must not be empty")
    require (not (ltb (len (lib.trim password)) 8))
        (400, "Password must be at least 8 characters long.")
    hash ← hash_password lib env.salt (lib.trim password)
    require (not env.write_fails) (500, "Database error")
    let change = λ (r : AuthRow). record r {
      password_hash = hash;
      updated_at = env.now;
      last_password_reset = some env.now;
      force_password_reset = true;
    }
    elim (first (at user_id tenant_id) users) [
      | none ↦ err (404, "User not found")
      | some r ↦ ok (change r, update (at user_id tenant_id) change users)
    ]

  unfoldable pub reset_user_password : Env → ℕ → String → World → Result Failure AuthRow × World
  unfolding reset_row
  reset_user_password env user_id password w = settle w (reset_row env user_id password w.users)
