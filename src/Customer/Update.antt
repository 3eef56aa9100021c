-- ===== src/Customer/Update.antt =====
-- services/customer-service/src/main.rs: `update_customer_impl`.
pub mod Opened
pub mod Reads
pub mod Stores
use text.Mathlib.Text.{◌==◌ as str_eq}
use peanut_pos.Base.{
  ℕ, String, Bool, true, false, not, ◌&&◌, ◌||◌, Option, none, some, [], ◌∷◌, ◌==◌, if◌then◌else◌,
}
use peanut_pos.Base.Api.{
  ApiError, bad_request, internal, not_found, forbidden_missing_role, Result, ok, err,
}
use peanut_pos.Base.Lists.{any}
use peanut_pos.Base.Table.{first, update}
use peanut_pos.Base.Tx.{Tx, ◌>>=◌, pure}
use peanut_pos.Security.Policy.{customer_write, has_capability}
use peanut_pos.Crypto.{Bytes, encrypt_field, encrypt_with_key}
use peanut_pos.Customer.Store.{
  Customer, CustomerRow, Db, Env, loads_customer, updates, is_customer, is_some, sanitize_optional,
  hash_email, hash_phone,
}
use peanut_pos.Customer.Keys.{
  Cache, no_keys, active, decrypt_optional_field, hydrate_customer_row, value,
}

-- For the email and the phone, the outer option says whether the request has the field.
pub record UpdateCustomerRequest : Type 0 where
  pub name : Option String
  pub email : Option (Option String)
  pub phone : Option (Option String)

-- The parameters of the UPDATE.
pub record Change : Type 0 where
  pub name : String
  pub email_encrypted : Option Bytes
  pub phone_encrypted : Option Bytes
  pub email_hash : Option Bytes
  pub phone_hash : Option Bytes
  pub version : Option ℕ

abbrev pub same_text : Option String → Option String → Bool
same_text none none = true
same_text (some a) (some b) = str_eq a b
same_text _ _ = false

abbrev pub same_bytes : Bytes → Bytes → Bool
same_bytes [] [] = true
same_bytes (a ∷ as') (b ∷ bs) = (a == b) && same_bytes as' bs
same_bytes _ _ = false

-- An equality of nullable columns, which is not true of NULL.
abbrev pub same_hash : Option Bytes → Option Bytes → Bool
same_hash (some a) (some b) = same_bytes a b
same_hash _ _ = false

-- The plain column, or the sealed one opened.
unfoldable pub existing_field :
    Env → Db → Option String → Option Bytes → Option ℕ → Tx Cache (Option String)
unfolding decrypt_optional_field
existing_field env db (some v) sealed version c = ok (some v, c)
existing_field env db none sealed version c = decrypt_optional_field env db sealed version c

unfoldable pub final_field : Env → Option (Option String) → Option String → Option String
unfolding sanitize_optional
final_field env (some asked) old = sanitize_optional env asked
final_field env none old = old

unfoldable pub new_name : Env → String → Option String → Tx Cache String
new_name env old none c = ok (old, c)
new_name env old (some candidate) c =
    if str_eq (env.trim candidate) ""
    then err (bad_request "invalid_name")
    else ok (env.trim candidate, c)

unfoldable pub seal : Env → Bytes → Bytes → Option String → Tx Cache (Option Bytes)
unfolding encrypt_with_key
seal env key nonce none c = ok (none, c)
seal env key nonce (some v) c = elim (encrypt_field env.lib key nonce (env.as_bytes v)) [
  | err e ↦ err internal
  | ok sealed ↦ ok (some sealed, c)
]

abbrev pub hash_of : (String → Option Bytes) → Option String → Option Bytes
hash_of h none = none
hash_of h (some v) = h v

unfoldable pub sealed_change : Env → Db → String → Option String → Option String → Tx Cache Change
unfolding active seal hash_email hash_phone
sealed_change env db name email phone = do
  dek ← active env db
  enc_email ← seal env dek.key env.email_nonce email
  enc_phone ← seal env dek.key env.phone_nonce phone
  pure (record {
    name = name;
    email_encrypted = enc_email;
    phone_encrypted = enc_phone;
    email_hash = hash_of (hash_email env dek.key) email;
    phone_hash = hash_of (hash_phone env dek.key) phone;
    version = some dek.version;
  })

abbrev pub cleared : String → Change
cleared name = record {
  name = name;
  email_encrypted = none;
  phone_encrypted = none;
  email_hash = none;
  phone_hash = none;
  version = none;
}

unfoldable pub change_for : Env → Db → String → Option String → Option String → Tx Cache Change
unfolding sealed_change
change_for env db name email phone =
    if is_some email || is_some phone
    then sealed_change env db name email phone
    else pure (cleared name)

unfoldable pub change_if_new :
    Env → Db → Bool → String → Option String → Option String → Tx Cache (Option Change)
unfolding change_for
change_if_new env db unchanged name email phone =
    if unchanged then pure none else (change_for env db name email phone >>= λ ch. pure (some ch))

-- The parameters, or nothing where the request changes nothing.
unfoldable pub prepare : Env → Db → CustomerRow → UpdateCustomerRequest → Tx Cache (Option Change)
unfolding existing_field new_name final_field change_if_new
prepare env db row req = do
  old_email ← existing_field env db row.email row.email_encrypted row.pii_key_version
  old_phone ← existing_field env db row.phone row.phone_encrypted row.pii_key_version
  name ← new_name env row.name req.name
  let email = final_field env req.email old_email
  let phone = final_field env req.phone old_phone
  change_if_new env db
      (str_eq name row.name && (same_text email old_email && same_text phone old_phone)) name email
      phone

abbrev pub changed : Env → Change → CustomerRow → CustomerRow
changed env ch r = record r {
  name = ch.name;
  email = none;
  phone = none;
  email_encrypted = ch.email_encrypted;
  phone_encrypted = ch.phone_encrypted;
  email_hash = ch.email_hash;
  phone_hash = ch.phone_hash;
  pii_key_version = ch.version;
  pii_encrypted_at = elim ch.version [ none ↦ none | some _ ↦ some env.now ];
}

-- The unique indexes on (tenant_id, email_hash) and (tenant_id, phone_hash).
abbrev pub is_taken : ℕ → ℕ → Change → CustomerRow → Bool
is_taken t id ch r =
    (r.tenant_id == t)
    && (not (r.id == id)
        && (same_hash r.email_hash ch.email_hash || same_hash r.phone_hash ch.phone_hash))

unfoldable pub write_change : Env → ℕ → Change → Cache → Db → Result ApiError Customer × Db
unfolding first update hydrate_customer_row
write_change env id ch c db =
    if env.fails updates || any (is_taken env.sec.tenant_id id ch) db.customers
    then (err internal, db)
    else let db' = record db {
      customers = update (is_customer env.sec.tenant_id id) (changed env ch) db.customers;
    } in
      elim (first (is_customer env.sec.tenant_id id) db'.customers) [
        | none ↦ (err (not_found "customer_not_found"), db')
        | some row ↦ (value (hydrate_customer_row env db' row c), db')
      ]

unfoldable pub update_row :
    Env → ℕ → UpdateCustomerRequest → CustomerRow → Db → Result ApiError Customer × Db
unfolding prepare write_change
update_row env id req row db = elim (prepare env db row req no_keys) [
  | err e ↦ (err e, db)
  | ok (change, c) ↦ elim change [
    | none ↦ (value (hydrate_customer_row env db row c), db)
    | some ch ↦ write_change env id ch c db
  ]
]

unfoldable pub update_customer :
    Env → ℕ → UpdateCustomerRequest → Db → Result ApiError Customer × Db
unfolding has_capability update_row
update_customer env id req db =
    if has_capability env.sec customer_write
    then if env.fails loads_customer
      then (err internal, db)
      else elim (first (is_customer env.sec.tenant_id id) db.customers) [
        | none ↦ (err (not_found "customer_not_found"), db)
        | some row ↦ update_row env id req row db
      ]
    else (err (forbidden_missing_role "customer_write"), db)
