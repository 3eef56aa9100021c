-- ===== src/Customer/Gdpr.antt =====
-- services/customer-service/src/main.rs: `gdpr_export_customer` and `gdpr_delete_customer` with the
-- tombstones that they leave, `create_customer_impl`, and the service as a sequence of calls.
pub mod Erased
pub mod Protected
use text.Mathlib.Text.{◌==◌ as str_eq}
use peanut_pos.Base.{ℕ, String, Bool, ◌||◌, Option, none, some, List, [], ◌∷◌, ◌++◌, if◌then◌else◌}
use peanut_pos.Base.Api.{ApiError, internal, not_found, forbidden_missing_role, Result, ok, err}
use peanut_pos.Base.Lists.{any}
use peanut_pos.Base.Table.{first, update}
use peanut_pos.Base.Tx.{Tx, ◌>>=◌, ◌>>◌, pure, raise, attempt, require, some_or, transaction}
use peanut_pos.Security.Policy.{customer_write, gdpr_manage, has_capability}
use peanut_pos.Customer.Store.{
  Customer, CustomerRow, Tombstone, Db, Env, loads_customer, begin, erases, writes_tombstone,
  commits, is_customer, is_some, sanitize_optional,
}
use peanut_pos.Customer.Keys.{no_keys, active, hydrate_customer_row, value}
use peanut_pos.Customer.Update.{UpdateCustomerRequest, update_customer, seal}

abbrev pub gdpr_deleted_name : String
gdpr_deleted_name = "[deleted]"

abbrev pub tombstone : Env → ℕ → String → String → Bool → Bool → Tombstone
tombstone env customer request_type status had_email had_phone = record {
  id = env.tombstone_id;
  tenant_id = env.sec.tenant_id;
  customer_id = some customer;
  request_type = request_type;
  status = status;
  had_email = had_email;
  had_phone = had_phone;
  processed_at = if str_eq status "completed" then some env.now else none;
}

unfoldable pub insert_gdpr_tombstone : Env → Tombstone → Tx Db ℕ
insert_gdpr_tombstone env t db = ok (t.id, record db { tombstones = db.tombstones ++ t ∷ [] })

-- The row, of a caller with the capability.
unfoldable pub found_customer : Env → ℕ → Tx Db CustomerRow
unfolding has_capability first
found_customer env id db =
    (require (has_capability env.sec customer_write) (forbidden_missing_role "customer_write")
        >> attempt (env.fails loads_customer) (
            some_or (not_found "customer_not_found")
              (first (is_customer env.sec.tenant_id id) db.customers)))
      db

-- `hydrate_customer_row` with the keys of this request.
unfoldable pub opened_customer : Env → CustomerRow → Tx Db Customer
unfolding hydrate_customer_row
opened_customer env row db = elim (value (hydrate_customer_row env db row no_keys)) [
  | err e ↦ err e
  | ok c ↦ ok (c, db)
]

unfoldable pub export_tx : Env → ℕ → Tx Db (ℕ × Customer)
unfolding found_customer insert_gdpr_tombstone opened_customer
export_tx env id = do
  row ← found_customer env id
  customer ← opened_customer env row
  export_id ← attempt (env.fails writes_tombstone) (
      insert_gdpr_tombstone env
        (tombstone env id "export" "completed" (is_some customer.email) (is_some customer.phone)))
  pure (export_id, customer)

unfoldable pub gdpr_export_customer : Env → ℕ → Db → Result ApiError (ℕ × Customer) × Db
unfolding export_tx
gdpr_export_customer env id = transaction (export_tx env id)

abbrev pub erased : CustomerRow → CustomerRow
erased r = record r {
  name = gdpr_deleted_name;
  email = none;
  phone = none;
  email_encrypted = none;
  phone_encrypted = none;
  email_hash = none;
  phone_hash = none;
  pii_key_version = none;
  pii_encrypted_at = none;
}

-- UPDATE customers, and the test of the rows affected.
unfoldable pub erase : Env → ℕ → Tx Db (Unit {0})
unfolding update
erase env id db =
    if any (is_customer env.sec.tenant_id id) db.customers
    then ok (
      tt,
      record db { customers = update (is_customer env.sec.tenant_id id) erased db.customers },
    )
    else err (not_found "customer_not_found")

unfoldable pub delete_tx : Env → ℕ → Tx Db ℕ
unfolding found_customer erase insert_gdpr_tombstone
delete_tx env id = do
  row ← found_customer env id
  attempt (env.fails begin) (pure tt)
  attempt (env.fails erases) (erase env id)
  tombstone_id ← attempt (env.fails writes_tombstone) (
      insert_gdpr_tombstone env (
        tombstone env id "delete" "completed" (is_some row.email || is_some row.email_encrypted)
          (is_some row.phone || is_some row.phone_encrypted)))
  attempt (env.fails commits) (pure tombstone_id)

unfoldable pub gdpr_delete_customer : Env → ℕ → Db → Result ApiError ℕ × Db
unfolding delete_tx
gdpr_delete_customer env id = transaction (delete_tx env id)

pub record NewCustomer : Type 0 where
  pub name : String
  pub email : Option String
  pub phone : Option String

-- The list of columns of the INSERT ends in a comma, which PostgreSQL refuses as a syntax error, so that
-- no row is ever returned.
unfoldable pub create_customer : Env → NewCustomer → Db → Result ApiError Customer
unfolding has_capability active seal sanitize_optional
create_customer env req db =
    if has_capability env.sec gdpr_manage
    then value (
        (active env db >>= λ dek.
        seal env dek.key env.email_nonce (sanitize_optional env req.email) >>= λ email.
        seal env dek.key env.phone_nonce (sanitize_optional env req.phone) >>= λ phone.
        raise internal)
          no_keys)
    else err (forbidden_missing_role "customer_write")

-- The calls that may write.
pub data Call : Type 0 where
  updates : ℕ → UpdateCustomerRequest → Call
  exports : ℕ → Call
  deletes : ℕ → Call

unfoldable pub serve : Env → Call → Db → Db
unfolding update_customer gdpr_export_customer gdpr_delete_customer
serve env (updates id req) db = (update_customer env id req db).1
serve env (exports id) db = (gdpr_export_customer env id db).1
serve env (deletes id) db = (gdpr_delete_customer env id db).1

unfoldable pub session : List (Env × Call) → Db → Db
unfolding serve
session [] db = db
session ((env, c) ∷ cs) db = session cs (serve env c db)
