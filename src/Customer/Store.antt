-- ===== src/Customer/Store.antt =====
-- services/customer-service/src/main.rs: the rows of customers, tenant_data_keys and gdpr_tombstones, and
-- what the handlers are given. The crates' functions and the drawn nonces and ids are arguments.
use text.Mathlib.Text.{◌==◌ as str_eq}
use peanut_pos.Base.{
  ℕ, String, Bool, true, false, ◌&&◌, Option, none, some, List, ◌==◌, if◌then◌else◌,
}
use peanut_pos.Auth.Mfa.{codes, digits_only}
use peanut_pos.Security.Role.{SecurityContext}
use peanut_pos.Crypto.{Bytes, Ciphers, deterministic_hash}

pub record Customer : Type 0 where
  pub id : ℕ
  pub tenant_id : ℕ
  pub name : String
  pub email : Option String
  pub phone : Option String
  pub created_at : ℕ

pub record CustomerRow : Type 0 where
  pub id : ℕ
  pub tenant_id : ℕ
  pub name : String
  pub email : Option String
  pub phone : Option String
  pub email_encrypted : Option Bytes
  pub phone_encrypted : Option Bytes
  pub email_hash : Option Bytes
  pub phone_hash : Option Bytes
  pub pii_key_version : Option ℕ
  pub pii_encrypted_at : Option ℕ
  pub created_at : ℕ

pub record TenantKeyRow : Type 0 where
  pub tenant_id : ℕ
  pub key_version : ℕ
  pub encrypted_key : Bytes
  pub active : Bool

-- The metadata says whether there was an email and a phone.
pub record Tombstone : Type 0 where
  pub id : ℕ
  pub tenant_id : ℕ
  pub customer_id : Option ℕ
  pub request_type : String
  pub status : String
  pub had_email : Bool
  pub had_phone : Bool
  pub processed_at : Option ℕ

pub record Db : Type 0 where
  pub customers : List CustomerRow
  pub keys : List TenantKeyRow
  pub tombstones : List Tombstone

pub data Site : Type 0 where
  loads_key loads_customer updates begin erases writes_tombstone commits searches : Site

pub record Env : Type 0 where
  pub sec : SecurityContext
  pub lib : Ciphers
  pub master : Bytes
  pub email_nonce : Bytes
  pub phone_nonce : Bytes
  pub tombstone_id : ℕ
  pub now : ℕ
  pub trim : String → String
  pub to_ascii_lowercase : String → String
  pub as_bytes : String → Bytes
  pub from_utf8 : Bytes → Option String
  pub ilike : String → String → Bool
  pub fails : Site → Bool

-- WHERE tenant_id = $1 AND id = $2.
abbrev pub is_customer : ℕ → ℕ → CustomerRow → Bool
is_customer t id r = (r.tenant_id == t) && (r.id == id)

abbrev pub is_some : {A : Type 0} → Option A → Bool
is_some none = false
is_some (some a) = true

abbrev pub or_else : {A : Type 0} → Option A → Option A → Option A
or_else none b = b
or_else (some a) b = some a

unfoldable pub sanitize_optional : Env → Option String → Option String
sanitize_optional env none = none
sanitize_optional env (some v) = if str_eq (env.trim v) "" then none else some (env.trim v)

unfoldable pub normalize_email : Env → String → String
normalize_email env value = env.to_ascii_lowercase (env.trim value)

unfoldable pub normalize_phone : String → Bytes
unfolding digits_only
normalize_phone value = digits_only (codes value)

unfoldable pub hash_email : Env → Bytes → String → Option Bytes
unfolding normalize_email deterministic_hash
hash_email env key value =
    let normalized = normalize_email env value in
    if str_eq normalized ""
    then none
    else some (deterministic_hash env.lib key (env.as_bytes normalized))

unfoldable pub hash_phone : Env → Bytes → String → Option Bytes
unfolding normalize_phone deterministic_hash
hash_phone env key value = elim (normalize_phone value) [
  | List.[] ↦ none
  | List.◌∷◌ d ds ↦ some (deterministic_hash env.lib key (List.◌∷◌ d ds))
]
