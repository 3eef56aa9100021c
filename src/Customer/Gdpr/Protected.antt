-- ===== src/Customer/Gdpr/Protected.antt =====
-- Emails and phones are stored sealed, with the version of their key.
use peanut_pos.Base.{
  ℕ, String, ◌≡◌, refl, sym, subst, ◌∙◌, Bool, true, false, ◌||◌, Bool-cases, Option-cases, inl,
  inr, Option, none, some, List, [], ◌∷◌, arith,
}
use peanut_pos.Base.Api.{ok, Result-cases}
use peanut_pos.Base.Lists.{All, any}
use peanut_pos.Base.Table.{first, update}
use peanut_pos.Base.Tx.Keeps.{Keeps, bind-ok, keeps_rules, transaction_keeps}
use peanut_pos.Security.Policy.{customer_write, has_capability}
use peanut_pos.Customer.Store.{
  CustomerRow, Tombstone, Db, Env, loads_customer, is_customer, is_some,
}
use peanut_pos.Customer.Store
use peanut_pos.Customer.Keys.{Cache, no_keys, active}
use peanut_pos.Customer.Update.{
  UpdateCustomerRequest, Change, seal, sealed_change, change_for, change_if_new, cleared, prepare,
  existing_field, new_name, final_field, changed, is_taken, write_change, update_row,
  update_customer,
}
use peanut_pos.Customer.Gdpr.{
  found_customer, opened_customer, export_tx, erased, erase, insert_gdpr_tombstone, delete_tx,
  gdpr_export_customer, gdpr_delete_customer, Call, updates, exports, deletes, serve, session,
}
use peanut_pos.Customer.Gdpr.Erased.{found_row}

-- No plain email or phone, and no ciphertext without the version of its key.
pub record Protected (r : CustomerRow) : Type 0 where
  pub email : r.email ≡ none
  pub phone : r.phone ≡ none
  pub email_version : r.pii_key_version ≡ none → r.email_encrypted ≡ none
  pub phone_version : r.pii_key_version ≡ none → r.phone_encrypted ≡ none

abbrev pub AllProtected : Db → Type 0
AllProtected db = All Protected db.customers

record Versioned (ch : Change) : Type 0 where
  pub email : ch.version ≡ none → ch.email_encrypted ≡ none
  pub phone : ch.version ≡ none → ch.phone_encrypted ≡ none

change_for-Versioned :
    (env : Env) (db : Db) (name : String) (email phone : Option String) (ch : Change) (c c' : Cache)
    → change_for env db name email phone c ≡ ok (ch, c')
    → Versioned ch
unfolding change_for
change_for-Versioned env db name email phone ch c c' h =
    elim (Bool-cases (is_some email || is_some phone)) [
      | inl b ↦ sealed (sym (rw (b, change_for) refl) ∙ h)
      | inr b ↦
          let direct : change_for env db name email phone c ≡ ok (cleared name, c) =
            rw (b, change_for) refl in
          let both = sym direct ∙ h in
          let same : cleared name ≡ ch = cc in
          subst Versioned same (record { email = λ e. refl; phone = λ e. refl })
    ]
  where
    sealed : sealed_change env db name email phone c ≡ ok (ch, c') → Versioned ch
    sealed h =
        let (dek, c1, loaded, rest) = bind-ok (active env db) _ c c' ch h in
        let (enc_email, c2, made, rest2) =
          bind-ok (seal env dek.key env.email_nonce email) _ c1 c' ch rest in
        let (enc_phone, c3, made3, last) =
          bind-ok (seal env dek.key env.phone_nonce phone) _ c2 c' ch rest2 in
        let version : some dek.version ≡ ch.version = ground arith in
        record { email = λ e. absurd (ground arith); phone = λ e. absurd (ground arith) }

change_if_new-Versioned :
    (env : Env) (db : Db) (unchanged : Bool) (name : String) (email phone : Option String)
    (ch : Change) (c c' : Cache)
    → change_if_new env db unchanged name email phone c ≡ ok (some ch, c')
    → Versioned ch
unfolding change_if_new
change_if_new-Versioned env db true name email phone ch c c' h = absurd (ground arith)
change_if_new-Versioned env db false name email phone ch c c' h =
    let (ch', c2, made, last) = bind-ok (change_for env db name email phone) _ c c' (some ch) h in
    let same : ch' ≡ ch = ground arith in
    subst Versioned same (change_for-Versioned env db name email phone ch' c c2 made)

prepare-Versioned :
    (env : Env) (db : Db) (row : CustomerRow) (req : UpdateCustomerRequest) (ch : Change)
    (c c' : Cache)
    → prepare env db row req c ≡ ok (some ch, c')
    → Versioned ch
unfolding prepare
prepare-Versioned env db row req ch c c' h =
    let (old, c1, read, rest) =
      bind-ok (existing_field env db row.email row.email_encrypted row.pii_key_version) _ c c'
        (some ch) h in
    let (old_phone, c2, read2, rest2) =
      bind-ok (existing_field env db row.phone row.phone_encrypted row.pii_key_version) _ c1 c'
        (some ch) rest in
    let (name, c3, named, rest3) =
      bind-ok (new_name env row.name req.name) _ c2 c' (some ch) rest2 in
    change_if_new-Versioned env db _ name (final_field env req.email old)
      (final_field env req.phone old_phone) ch c3 c' rest3

update-All :
    (p : CustomerRow → Bool) (f : CustomerRow → CustomerRow) (rows : List CustomerRow)
    → ((r : CustomerRow) → Protected (f r))
    → All Protected rows
    → All Protected (update p f rows)
unfolding update
update-All p f [] good h = tt
update-All p f (r ∷ rows) good (h, hs) = elim (Bool-cases (p r)) [
  | inl e ↦ rw e (good r, update-All p f rows good hs)
  | inr e ↦ rw e (h, update-All p f rows good hs)
]

write_change-Protected :
    (env : Env) (id : ℕ) (ch : Change) (c : Cache) (db : Db)
    → Versioned ch
    → AllProtected db
    → AllProtected (write_change env id ch c db).1
unfolding write_change
write_change-Protected env id ch c db v h =
    let mine = is_customer env.sec.tenant_id id in
    let good =
      update-All mine (changed env ch) db.customers
        (λ r. record {
          email = refl;
          phone = refl;
          email_version = v.email;
          phone_version = v.phone;
        })
        h in
    elim (Bool-cases
      (env.fails Store.updates || any (is_taken env.sec.tenant_id id ch) db.customers)) [
        | inl b ↦ rw b h
        | inr b ↦ elim (Option-cases (first mine (update mine (changed env ch) db.customers))) [
          | inl n ↦ rw (b, n) good
          | inr (row, n) ↦ rw (b, n) good
        ]
      ]

update_row-Protected :
    (env : Env) (id : ℕ) (req : UpdateCustomerRequest) (row : CustomerRow) (db : Db)
    → AllProtected db
    → AllProtected (update_row env id req row db).1
unfolding update_row
update_row-Protected env id req row db h = elim (Result-cases (prepare env db row req no_keys)) [
  | inl (e, p) ↦ rw (p, update_row) h
  | inr ((none, c), p) ↦ rw (p, update_row) h
  | inr ((some ch, c), p) ↦
      rw (p, update_row)
        (write_change-Protected env id ch c db (prepare-Versioned env db row req ch no_keys c p) h)
]

update_customer-Protected :
    (env : Env) (id : ℕ) (req : UpdateCustomerRequest) (db : Db)
    → AllProtected db
    → AllProtected (update_customer env id req db).1
unfolding update_customer
update_customer-Protected env id req db h =
    elim (Bool-cases (has_capability env.sec customer_write)) [
      | inr m ↦ rw m h
      | inl m ↦ elim (Bool-cases (env.fails loads_customer)) [
        | inl f ↦ rw (m, f) h
        | inr f ↦ elim (Option-cases (first (is_customer env.sec.tenant_id id) db.customers)) [
          | inl n ↦ rw (m, f, n) h
          | inr (row, n) ↦ rw (m, f, n) (update_row-Protected env id req row db h)
        ]
      ]
    ]

found_customer-Keeps : (env : Env) (id : ℕ) → Keeps AllProtected (found_customer env id)
found_customer-Keeps env id = record {
  at = λ db db' row h k. subst AllProtected (found_row env id db db' row h).0 k;
}

insert_gdpr_tombstone-Keeps :
    (env : Env) (t : Tombstone) → Keeps AllProtected (insert_gdpr_tombstone env t)
unfolding insert_gdpr_tombstone
insert_gdpr_tombstone-Keeps env t = record {
  at = λ db db' id h k.
      let e : db.customers ≡ db'.customers = ground arith in subst (All Protected) e k;
}

erase-Keeps : (env : Env) (id : ℕ) → Keeps AllProtected (erase env id)
unfolding erase
erase-Keeps env id = record {
  at = λ db db' u h k.
      let good =
        update-All (is_customer env.sec.tenant_id id) erased db.customers
          (λ r. record {
            email = refl;
            phone = refl;
            email_version = λ e. refl;
            phone_version = λ e. refl;
          })
          k in
      let e : update (is_customer env.sec.tenant_id id) erased db.customers ≡ db'.customers =
        ground arith in
      subst (All Protected) e good;
}

delete_tx-Keeps : (env : Env) (id : ℕ) → Keeps AllProtected (delete_tx env id)
unfolding delete_tx
delete_tx-Keeps env id =
    search (keeps_rules, found_customer-Keeps, insert_gdpr_tombstone-Keeps, erase-Keeps) depth 24

opened_customer-Keeps :
    (env : Env) (row : CustomerRow) → Keeps AllProtected (opened_customer env row)
unfolding opened_customer
opened_customer-Keeps env row = record {
  at = λ db db' c h k. let e : db ≡ db' = ground arith in subst AllProtected e k;
}

export_tx-Keeps : (env : Env) (id : ℕ) → Keeps AllProtected (export_tx env id)
unfolding export_tx
export_tx-Keeps env id =
    search (keeps_rules, found_customer-Keeps, insert_gdpr_tombstone-Keeps, opened_customer-Keeps)
      depth 24

serve-Protected : (env : Env) (c : Call) (db : Db) → AllProtected db → AllProtected (serve env c db)
unfolding serve gdpr_export_customer gdpr_delete_customer
serve-Protected env (updates id req) db h = update_customer-Protected env id req db h
serve-Protected env (exports id) db h =
    transaction_keeps (export_tx env id) db (export_tx-Keeps env id) h
serve-Protected env (deletes id) db h =
    transaction_keeps (delete_tx env id) db (delete_tx-Keeps env id) h

-- In a database where no customer has a plain email or phone, and none a ciphertext without the version
-- of its key, no updates, exports and erasures, by any callers and with any refusals, make one.
pub session-Protected :
    (cs : List (Env × Call)) (db : Db) → AllProtected db → AllProtected (session cs db)
unfolding session
session-Protected [] db h = h
session-Protected ((env, c) ∷ cs) db h =
    session-Protected cs (serve env c db) (serve-Protected env c db h)
