-- ===== src/Customer/Keys.antt =====
-- services/customer-service/src/main.rs: the tenant's data keys, their cache within a request, and the
-- opening of a row with them.
pub mod Loaded
pub mod Cache
use peanut_pos.Base.{
  ℕ, String, Bool, ◌&&◌, Option, none, some, List, [], ◌∷◌, ◌==◌, ltb, if◌then◌else◌,
}
use peanut_pos.Base.Api.{ApiError, internal, not_found, forbidden_missing_role, Result, ok, err}
use peanut_pos.Base.Table.{first, select}
use peanut_pos.Base.Tx.{Tx, ◌>>=◌, pure}
use peanut_pos.Security.Policy.{customer_view, has_capability}
use peanut_pos.Crypto.{Bytes, decrypt_with_key, decrypt_field, decrypt_tenant_dek}
use peanut_pos.Customer.Store.{
  Customer, CustomerRow, TenantKeyRow, Db, Env, loads_key, loads_customer, is_customer, or_else,
}

pub record TenantDek : Type 0 where
  pub version : ℕ
  pub key : Bytes

-- The HashMap of a request, from versions to keys.
abbrev pub Cache : Type 0
Cache = ℕ → Option Bytes

abbrev pub no_keys : Cache
no_keys v = none

abbrev pub insert : ℕ → Bytes → Cache → Cache
insert v k c w = if w == v then some k else c w

-- `entry(version).or_insert(key)`.
abbrev pub or_insert : ℕ → Bytes → Cache → Cache
or_insert v k c w = if w == v then or_else (c v) (some k) else c w

abbrev pub is_version : ℕ → ℕ → TenantKeyRow → Bool
is_version t v r = (r.tenant_id == t) && (r.key_version == v)

-- ORDER BY key_version DESC LIMIT 1.
unfoldable pub newest : List TenantKeyRow → Option TenantKeyRow
newest [] = none
newest (r ∷ rs) = elim (newest rs) [
  | none ↦ some r
  | some q ↦ some (if ltb r.key_version q.key_version then q else r)
]

unfoldable pub key_row : Env → Db → Option ℕ → Option TenantKeyRow
unfolding first select newest
key_row env db none = newest (select (λ r. (r.tenant_id == env.sec.tenant_id) && r.active) db.keys)
key_row env db (some v) = first (is_version env.sec.tenant_id v) db.keys

unfoldable pub open_dek : Env → TenantKeyRow → Result ApiError TenantDek
unfolding decrypt_tenant_dek
open_dek env r = elim (decrypt_tenant_dek env.lib env.master r.encrypted_key) [
  | err e ↦ err internal
  | ok key ↦ ok (record { version = r.key_version; key = key })
]

unfoldable pub load_tenant_dek : Env → Db → Option ℕ → Result ApiError TenantDek
unfolding key_row open_dek
load_tenant_dek env db version =
    if env.fails loads_key
    then err internal
    else elim (key_row env db version) [ none ↦ err internal | some r ↦ open_dek env r ]

unfoldable pub active : Env → Db → Tx Cache TenantDek
unfolding load_tenant_dek
active env db c = elim (load_tenant_dek env db none) [
  | err e ↦ err e
  | ok dek ↦ ok (dek, or_insert dek.version dek.key c)
]

unfoldable pub by_version : Env → Db → ℕ → Tx Cache Bytes
unfolding load_tenant_dek
by_version env db v c = elim (c v) [
  | some key ↦ ok (key, c)
  | none ↦ elim (load_tenant_dek env db (some v)) [
    | err e ↦ err e
    | ok dek ↦ ok (dek.key, insert dek.version dek.key c)
  ]
]

-- The text under a key.
unfoldable pub open_text : Env → Bytes → Bytes → Result ApiError String
unfolding decrypt_with_key
open_text env key ciphertext = elim (decrypt_field env.lib key ciphertext) [
  | err e ↦ err internal
  | ok plaintext ↦ elim (env.from_utf8 plaintext) [ none ↦ err internal | some s ↦ ok s ]
]

unfoldable pub decrypt_optional_field :
    Env → Db → Option Bytes → Option ℕ → Tx Cache (Option String)
unfolding by_version open_text
decrypt_optional_field env db none version c = ok (none, c)
decrypt_optional_field env db (some ciphertext) none c = err internal
decrypt_optional_field env db (some ciphertext) (some v) c = elim (by_version env db v c) [
  | err e ↦ err e
  | ok (key, c') ↦ elim (open_text env key ciphertext) [ err e ↦ err e | ok s ↦ ok (some s, c') ]
]

-- The opened values come before the plain columns.
abbrev pub customer_of : CustomerRow → Option String → Option String → Customer
customer_of row email phone = record {
  id = row.id;
  tenant_id = row.tenant_id;
  name = row.name;
  email = or_else email row.email;
  phone = or_else phone row.phone;
  created_at = row.created_at;
}

unfoldable pub hydrate_customer_row : Env → Db → CustomerRow → Tx Cache Customer
unfolding decrypt_optional_field
hydrate_customer_row env db row = do
  email ← decrypt_optional_field env db row.email_encrypted row.pii_key_version
  phone ← decrypt_optional_field env db row.phone_encrypted row.pii_key_version
  pure (customer_of row email phone)

-- What a request answers; its cache is dropped.
abbrev pub value : {A : Type 0} → Result ApiError (A × Cache) → Result ApiError A
value (ok (a, c)) = ok a
value (err e) = err e

-- `get_customer_impl`.
unfoldable pub get_customer : Env → ℕ → Db → Result ApiError Customer
unfolding has_capability first hydrate_customer_row
get_customer env id db =
    if has_capability env.sec customer_view
    then if env.fails loads_customer
      then err internal
      else elim (first (is_customer env.sec.tenant_id id) db.customers) [
        | none ↦ err (not_found "customer_not_found")
        | some row ↦ value (hydrate_customer_row env db row no_keys)
      ]
    else err (forbidden_missing_role "customer_view")
