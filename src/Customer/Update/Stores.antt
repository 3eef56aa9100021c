-- ===== src/Customer/Update/Stores.antt =====
-- The email that an update asks for is the one that it answers.
use peanut_pos.Base.{
  ℕ, String, ◌≡◌, refl, sym, ap, subst, ◌∙◌, ◌||◌, Bool-cases, inl, inr, Option, none, some, arith,
}
use peanut_pos.Base.Api.{ok, Result-cases}
use peanut_pos.Base.Lists.{length, any}
use peanut_pos.Base.Table.{first, update, first-update_hit, first-holds}
use peanut_pos.Security.Policy.{customer_write, has_capability}
use peanut_pos.Crypto.{nonce_length}
use peanut_pos.Crypto.RoundTrip.{IsAead}
use peanut_pos.Customer.Store.{
  Customer, CustomerRow, Db, Env, loads_customer, updates, is_customer, or_else, sanitize_optional,
}
use peanut_pos.Customer.Keys.{Cache, no_keys, hydrate_customer_row, decrypt_optional_field, value}
use peanut_pos.Customer.Keys.Cache.{
  Coherent, no_keys-Coherent, opened_field, field-Answers, hydrate_customer_row-Answers,
}
use peanut_pos.Customer.Keys.Loaded.{OneKey}
use peanut_pos.Customer.Update.{
  UpdateCustomerRequest, Change, existing_field, final_field, prepare, changed, is_taken,
  write_change, update_row, update_customer,
}
use peanut_pos.Customer.Update.Reads.{prepare-Keeps, moved_Coherent}
use peanut_pos.Customer.Update.Opened.{
  IsUtf8, opened_change, made_change, prepared, or_else-none, same_text-eq, opened_row-email,
  moved_field,
}

module _ (env : Env) (id : ℕ) (aead : IsAead env.lib) (asked : Option String)
    (utf8 : IsUtf8 env (sanitize_optional env asked)) (size : length env.email_nonce ≡ nonce_length)
    (x : Customer) (db : Db) (one : OneKey db) (row : CustomerRow)
    (found : first (is_customer env.sec.tenant_id id) db.customers ≡ some row)
    (sealed : row.email ≡ none) where
  unchanged_email :
      (old : Option String) (c c1 : Cache)
      → Coherent env db c
      → existing_field env db row.email row.email_encrypted row.pii_key_version no_keys
        ≡ ok (old, c1)
      → value (hydrate_customer_row env db row c) ≡ ok x
      → x.email ≡ old
  unfolding existing_field
  unchanged_email old c c1 k read answer =
      let plain : decrypt_optional_field env db row.email_encrypted row.pii_key_version no_keys
          ≡ ok (old, c1) =
        sym (rw (sealed, existing_field) refl) ∙ read in
      let opened =
        sym
          (field-Answers env db row.email_encrypted row.pii_key_version no_keys
            (no_keys-Coherent env db)).same
        ∙ ap value plain in
      let whole = sym (hydrate_customer_row-Answers env db row c k).same ∙ answer in
      opened_row-email env db row x old whole opened ∙ ap (or_else old) sealed ∙ or_else-none old

  written_email :
      (ch : Change) (c : Cache) (email : Option String) (db' : Db)
      → Coherent env db c
      → opened_field env db ch.email_encrypted ch.version ≡ ok email
      → write_change env id ch c db ≡ (ok x, db')
      → x.email ≡ email
  unfolding write_change
  written_email ch c email db' k opened h =
      let mine = is_customer env.sec.tenant_id id in
      let rows = update mine (changed env ch) db.customers in
      let moved = record db { customers = rows } in
      let hit =
        first-update_hit mine mine (changed env ch) db.customers row (λ r. refl) found
          (first-holds mine db.customers row found) in
      elim (Bool-cases (env.fails updates || any (is_taken env.sec.tenant_id id ch) db.customers)) [
        | inl b ↦ absurd (ground arith)
        | inr b ↦
            let direct : write_change env id ch c db
                ≡ (value (hydrate_customer_row env moved (changed env ch row) c), moved) =
              rw (b, hit, write_change) refl in
            let answer = ap (λ p. p.0) (sym direct ∙ h) in
            let whole =
              sym
                (hydrate_customer_row-Answers env moved (changed env ch row) c
                  (moved_Coherent env db rows c k)).same
              ∙ answer in
            opened_row-email env moved (changed env ch row) x email whole
              (moved_field env db rows ch.email_encrypted ch.version ∙ opened)
            ∙ or_else-none email
      ]

  row_email :
      (req : UpdateCustomerRequest) (db' : Db)
      → req.email ≡ some asked
      → update_row env id req row db ≡ (ok x, db')
      → x.email ≡ sanitize_optional env asked
  unfolding update_row final_field
  row_email req db' wants h = elim (Result-cases (prepare env db row req no_keys)) [
    | inl (e, p) ↦ absurd (ground arith)
    | inr ((change, c), p) ↦
        let k =
          (prepare-Keeps env db row req one).at no_keys c change p (no_keys-Coherent env db) in
        let (old, name, phone, unchanged, c1, c3, read, stays, made) =
          prepared env aead db row req change c p in
        let final : final_field env req.email old ≡ sanitize_optional env asked = rw wants refl in
        elim (made_change env aead db unchanged name (final_field env req.email old) phone change c3
          c made) [
            | inl (nothing, u) ↦
                let direct : update_row env id req row db
                    ≡ (value (hydrate_customer_row env db row c), db) =
                  rw (p, nothing, update_row) refl in
                unchanged_email old c c1 k read (ap (λ p. p.0) (sym direct ∙ h))
                ∙ sym (same_text-eq (final_field env req.email old) old (stays u))
                ∙ final
            | inr (ch, c2, some_change, done) ↦
                let direct : update_row env id req row db ≡ write_change env id ch c db =
                  rw (p, some_change, update_row) refl in
                written_email ch c (final_field env req.email old) db' k
                  (opened_change env aead db name (final_field env req.email old) phone ch c3 c2
                    (subst (IsUtf8 env) (sym final) utf8) one size done)
                  (sym direct ∙ h)
                ∙ final
          ]
  ]

-- Where AES-GCM opens what it sealed, the text is read back from its bytes, the nonce has 12 bytes and
-- the versions of a tenant's keys are distinct, an update of a customer whose plain email column is
-- empty that asks for an email and answers with a customer answers with that email, trimmed, or with
-- none if it is blank.
pub update_customer-email :
    (env : Env) (id : ℕ) (req : UpdateCustomerRequest) (db db' : Db) (row : CustomerRow)
    (x : Customer) (asked : Option String)
    → IsAead env.lib
    → IsUtf8 env (sanitize_optional env asked)
    → length env.email_nonce ≡ nonce_length
    → OneKey db
    → first (is_customer env.sec.tenant_id id) db.customers ≡ some row
    → row.email ≡ none
    → req.email ≡ some asked
    → update_customer env id req db ≡ (ok x, db')
    → x.email ≡ sanitize_optional env asked
unfolding update_customer
update_customer-email env id req db db' row x asked aead utf8 size one found sealed wants h =
    elim (Bool-cases (has_capability env.sec customer_write)) [
      | inr m ↦ absurd (ground arith)
      | inl m ↦ elim (Bool-cases (env.fails loads_customer)) [
        | inl f ↦ absurd (ground arith)
        | inr f ↦
            let direct : update_customer env id req db ≡ update_row env id req row db =
              rw (m, f, found, update_customer) refl in
            row_email env id aead asked utf8 size x db one row found sealed req db' wants
              (sym direct ∙ h)
      ]
    ]
