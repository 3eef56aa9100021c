-- ===== src/Customer/Tests.antt =====
-- A customer who is given an email and then erased, and the theorems at these calls.
use peanut_pos.Base.{
  if◌then◌else◌, String, ◌≡◌, refl, true, false, Option, none, some, [], ◌∷◌, ◌++◌,
}
use peanut_pos.Base.Api.{ok}
use peanut_pos.Base.Lists
use peanut_pos.Base.Table
use peanut_pos.Auth.Mfa.{codes}
use peanut_pos.Crypto.{Bytes}
use peanut_pos.Crypto.Tests.{ciphers, ciphers-IsAead}
use peanut_pos.Security.Role.{manager}
use peanut_pos.Customer.Store
use peanut_pos.Customer.Store.{Customer, CustomerRow, Db, Env}
use peanut_pos.Customer.Keys.{get_customer}
use peanut_pos.Customer.Keys.Loaded.{OneKey}
use peanut_pos.Customer.Update
use peanut_pos.Customer.Update.{UpdateCustomerRequest, update_customer}
use peanut_pos.Customer.Update.Reads.{get-update}
use peanut_pos.Customer.Update.Stores.{update_customer-email}
use peanut_pos.Customer.Gdpr.{updates, deletes, gdpr_delete_customer, session}
use peanut_pos.Customer.Gdpr.Erased.{Erased, gdpr_delete_customer-Erased}
use peanut_pos.Customer.Gdpr.Protected.{AllProtected, session-Protected}

abbrev as_bytes : String → Bytes
as_bytes s = codes s

-- Of the texts of these tests.
abbrev from_utf8 : Bytes → Option String
from_utf8 bytes = if Update.same_bytes bytes (codes "a@x") then some "a@x" else none

abbrev dek : Bytes
dek =
    0 ∷ 1 ∷ 2 ∷ 3 ∷ 4 ∷ 5 ∷ 6 ∷ 7 ∷ 8 ∷ 9 ∷ 10 ∷ 11 ∷ 12 ∷ 13 ∷ 14 ∷ 15 ∷ 16 ∷ 17 ∷ 18 ∷ 19 ∷ 20
    ∷ 21 ∷ 22 ∷ 23 ∷ 24 ∷ 25 ∷ 26 ∷ 27 ∷ 28 ∷ 29 ∷ 30 ∷ 31 ∷ []

abbrev nonce : Bytes
nonce = 0 ∷ 0 ∷ 0 ∷ 0 ∷ 0 ∷ 0 ∷ 0 ∷ 0 ∷ 0 ∷ 0 ∷ 0 ∷ 0 ∷ []

abbrev desk : Env
desk = record {
  sec = record { tenant_id = 7; roles = manager ∷ [] };
  lib = ciphers;
  master = [];
  email_nonce = nonce;
  phone_nonce = nonce;
  tombstone_id = 90;
  now = 100;
  trim = λ s. s;
  to_ascii_lowercase = λ s. s;
  as_bytes = as_bytes;
  from_utf8 = from_utf8;
  ilike = λ s p. false;
  fails = λ s. false;
}

abbrev ann : CustomerRow
ann = record {
  id = 1;
  tenant_id = 7;
  name = "Ann";
  email = none;
  phone = none;
  email_encrypted = none;
  phone_encrypted = none;
  email_hash = none;
  phone_hash = none;
  pii_key_version = none;
  pii_encrypted_at = none;
  created_at = 50;
}

abbrev shop : Db
shop = record {
  customers = ann ∷ [];
  keys =
      record { tenant_id = 7; key_version = 1; encrypted_key = nonce ++ 0 ∷ dek; active = true }
      ∷ [];
  tombstones = [];
}

abbrev new_email : UpdateCustomerRequest
new_email = record { name = none; email = some (some "a@x"); phone = none }

abbrev ann_now : Customer
ann_now = record {
  id = 1;
  tenant_id = 7;
  name = "Ann";
  email = some "a@x";
  phone = none;
  created_at = 50;
}

ann_updated : (update_customer desk 1 new_email shop).0 ≡ ok ann_now
unfolding update_customer Lists.take Lists.drop
ann_updated = refl

abbrev after : Db
after = (update_customer desk 1 new_email shop).1

whole_update : update_customer desk 1 new_email shop ≡ (ok ann_now, after)
unfolding update_customer Lists.take Lists.drop
whole_update = refl

shop-OneKey : OneKey shop
unfolding Table.first
shop-OneKey = (refl, tt)

get-update_example : get_customer desk 1 after ≡ ok ann_now
get-update_example = get-update desk 1 new_email shop after ann_now shop-OneKey whole_update

update_customer-email_example : ann_now.email ≡ Store.sanitize_optional desk (some "a@x")
unfolding Table.first Store.sanitize_optional
update_customer-email_example =
    update_customer-email desk 1 new_email shop after ann ann_now (some "a@x") ciphers-IsAead refl
      refl shop-OneKey refl refl refl whole_update

abbrev gone : Db
gone = (gdpr_delete_customer desk 1 after).1

ann_erased : gdpr_delete_customer desk 1 after ≡ (ok 90, gone)
unfolding gdpr_delete_customer update_customer Lists.take Lists.drop
ann_erased = refl

gdpr_delete_customer-Erased_example : Erased desk 1 after gone 90
gdpr_delete_customer-Erased_example = gdpr_delete_customer-Erased desk 1 90 after gone ann_erased

session-Protected_example :
    AllProtected (session ((desk, updates 1 new_email) ∷ (desk, deletes 1) ∷ []) shop)
session-Protected_example =
    session-Protected ((desk, updates 1 new_email) ∷ (desk, deletes 1) ∷ []) shop (
      record { email = refl; phone = refl; email_version = λ e. refl; phone_version = λ e. refl },
      tt,
    )
