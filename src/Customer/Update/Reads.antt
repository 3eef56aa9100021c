-- ===== src/Customer/Update/Reads.antt =====
-- What an update answers is what is read afterwards, and is what was asked for.
use peanut_pos.Base.{
  ℕ, String, ◌≡◌, refl, sym, ap, subst, ◌∙◌, Bool, true, false, ◌||◌, Bool-cases, Option-cases, inl,
  inr, Option, none, some, List, [], ◌∷◌, arith,
}
use peanut_pos.Base.Api.{ok, Result-cases}
use peanut_pos.Base.Lists.{any}
use peanut_pos.Base.Table.{first, update}
use peanut_pos.Base.Tx.{Tx}
use peanut_pos.Base.Tx.Keeps.{Keeps, Keeps-pure, Keeps-bind}
use peanut_pos.Security.Role.{
  Role, super_admin, admin, manager, support, inventory, cashier, unknown, SecurityContext,
}
use peanut_pos.Security.Policy.{customer_view, customer_write, has_capability}
use peanut_pos.Security.Access.{has_capability_lem, may_use}
use peanut_pos.Crypto.{Bytes}
use peanut_pos.Customer.Store.{
  Customer, CustomerRow, Db, Env, loads_customer, updates, is_customer, is_some,
}
use peanut_pos.Customer.Keys.{
  Cache, no_keys, active, load_tenant_dek, key_row, hydrate_customer_row, get_customer, value,
}
use peanut_pos.Customer.Keys.Cache.{
  Coherent, no_keys-Coherent, opened_row, field-Answers, hydrate_customer_row-Answers,
  active-Coherent,
}
use peanut_pos.Customer.Keys.Loaded.{OneKey}
use peanut_pos.Customer.Update.{
  UpdateCustomerRequest, Change, existing_field, new_name, seal, sealed_change, change_for,
  change_if_new, cleared, prepare, changed, write_change, update_row, update_customer, final_field,
  is_taken,
}

-- A step that leaves the cache.
Keeps-same :
    {A : Type 0} (P : Cache → Type 0) (m : Tx Cache A)
    → ((c c' : Cache) (a : A) → m c ≡ ok (a, c') → c ≡ c')
    → Keeps P m
Keeps-same P m same = record { at = λ c c' a h k. subst P (same c c' a h) k }

module _ (env : Env) (db : Db) where
  pub existing_field-Keeps :
      (v : Option String) (sealed : Option Bytes) (version : Option ℕ)
      → Keeps (Coherent env db) (existing_field env db v sealed version)
  unfolding existing_field
  existing_field-Keeps (some v) sealed version = Keeps-same _ _ (λ c c' a h. cc)
  existing_field-Keeps none sealed version = record {
    at = λ c c' a h k. (field-Answers env db sealed version c k).kept a c' h;
  }

  pub new_name-Keeps :
      (old : String) (candidate : Option String)
      → Keeps (Coherent env db) (new_name env old candidate)
  unfolding new_name
  new_name-Keeps old none = Keeps-same _ _ (λ c c' a h. cc)
  new_name-Keeps old (some candidate) = Keeps-same _ _ (λ c c' a h. ground arith)

  seal-Keeps :
      (key nonce : Bytes) (v : Option String) → Keeps (Coherent env db) (seal env key nonce v)
  unfolding seal
  seal-Keeps key nonce none = Keeps-same _ _ (λ c c' a h. cc)
  seal-Keeps key nonce (some v) = Keeps-same _ _ (λ c c' a h. ground arith)

  pub active-Keeps : OneKey db → Keeps (Coherent env db) (active env db)
  active-Keeps one = record { at = λ c c' dek h k. (active-Coherent env db c dek c' one k h).1 }

  change_for-Keeps :
      (name : String) (email phone : Option String)
      → OneKey db
      → Keeps (Coherent env db) (change_for env db name email phone)
  unfolding change_for sealed_change
  change_for-Keeps name email phone one = elim (Bool-cases (is_some email || is_some phone)) [
    | inl b ↦ rw b (
        Keeps-bind _ _ (active-Keeps one) λ dek.
          Keeps-bind _ _ (seal-Keeps dek.key env.email_nonce email)
            λ a. Keeps-bind _ _ (seal-Keeps dek.key env.phone_nonce phone) λ p. Keeps-pure _)
    | inr b ↦ rw b (Keeps-pure (cleared name))
  ]

  change_if_new-Keeps :
      (unchanged : Bool) (name : String) (email phone : Option String)
      → OneKey db
      → Keeps (Coherent env db) (change_if_new env db unchanged name email phone)
  unfolding change_if_new
  change_if_new-Keeps true name email phone one = Keeps-pure none
  change_if_new-Keeps false name email phone one =
      Keeps-bind _ _ (change_for-Keeps name email phone one) λ ch. Keeps-pure (some ch)

  pub prepare-Keeps :
      (row : CustomerRow) (req : UpdateCustomerRequest)
      → OneKey db
      → Keeps (Coherent env db) (prepare env db row req)
  unfolding prepare
  prepare-Keeps row req one =
      Keeps-bind _ _ (existing_field-Keeps row.email row.email_encrypted row.pii_key_version)
        λ old_email.
          Keeps-bind _ _ (existing_field-Keeps row.phone row.phone_encrypted row.pii_key_version)
            λ old_phone. Keeps-bind _ _ (new_name-Keeps row.name req.name) λ name.
              change_if_new-Keeps _ name (final_field env req.email old_email)
                (final_field env req.phone old_phone) one

any-writers :
    (rs : List Role)
    → any (λ r. may_use r customer_write) rs ≡ true
    → any (λ r. may_use r customer_view) rs ≡ true
any-writers [] h = h
any-writers (r ∷ rs) h = ground (arith, any-writers rs, writer_views r)
  where
    writer_views : (r : Role) → may_use r customer_write ≡ true → may_use r customer_view ≡ true
    writer_views super_admin h = refl
    writer_views admin h = refl
    writer_views manager h = refl
    writer_views support h = absurd (ground arith)
    writer_views inventory h = absurd (ground arith)
    writer_views cashier h = refl
    writer_views (unknown s) h = absurd (ground arith)

-- Who may change customers may see them.
writers_view :
    (sec : SecurityContext)
    → has_capability sec customer_write ≡ true
    → has_capability sec customer_view ≡ true
writers_view sec h =
    has_capability_lem sec customer_view
    ∙ any-writers sec.roles (sym (has_capability_lem sec customer_write) ∙ h)

reads :
    (env : Env) (id : ℕ) (db : Db) (row : CustomerRow)
    → has_capability env.sec customer_view ≡ true
    → env.fails loads_customer ≡ false
    → first (is_customer env.sec.tenant_id id) db.customers ≡ some row
    → get_customer env id db ≡ opened_row env db row
unfolding get_customer
reads env id db row may up found =
    rw (may, up, found)
      (hydrate_customer_row-Answers env db row no_keys (no_keys-Coherent env db)).same

pub moved_Coherent :
    (env : Env) (db : Db) (rows : List CustomerRow) (c : Cache)
    → Coherent env db c
    → Coherent env (record db { customers = rows }) c
unfolding load_tenant_dek key_row
moved_Coherent env db rows c k = k

module _ (env : Env) (id : ℕ) (x : Customer) (db' : Db)
    (may : has_capability env.sec customer_view ≡ true)
    (up : env.fails loads_customer ≡ false) where
  write_change-get :
      (ch : Change) (c : Cache) (db : Db)
      → Coherent env db c
      → write_change env id ch c db ≡ (ok x, db')
      → get_customer env id db' ≡ ok x
  unfolding write_change
  write_change-get ch c db k h =
      let rows = update (is_customer env.sec.tenant_id id) (changed env ch) db.customers in
      elim (Bool-cases (env.fails updates || any (is_taken env.sec.tenant_id id ch) db.customers)) [
        | inl b ↦ absurd (ground arith)
        | inr b ↦ elim (Option-cases (first (is_customer env.sec.tenant_id id) rows)) [
          | inl n ↦ absurd (ground arith)
          | inr (row, n) ↦
              let direct : write_change env id ch c db ≡ (
                value (hydrate_customer_row env (record db { customers = rows }) row c),
                record db { customers = rows },
              ) =
                rw (b, n, write_change) refl in
              let both = sym direct ∙ h in
              let moved : record db { customers = rows } ≡ db' = ap (λ p. p.1) both in
              let answer = ap (λ p. p.0) both in
              subst (λ d. get_customer env id d ≡ ok x) moved
                (reads env id (record db { customers = rows }) row may up n
                  ∙ sym
                      (hydrate_customer_row-Answers env (record db { customers = rows }) row c
                        (moved_Coherent env db rows c k)).same
                  ∙ answer)
        ]
      ]

  update_row-get :
      (req : UpdateCustomerRequest) (row : CustomerRow) (db : Db)
      → OneKey db
      → first (is_customer env.sec.tenant_id id) db.customers ≡ some row
      → update_row env id req row db ≡ (ok x, db')
      → get_customer env id db' ≡ ok x
  unfolding update_row
  update_row-get req row db one found h = elim (Result-cases (prepare env db row req no_keys)) [
    | inl (e, p) ↦ absurd (ground arith)
    | inr ((change, c), p) ↦
        let k =
          (prepare-Keeps env db row req one).at no_keys c change p (no_keys-Coherent env db) in
        by_change change c p k
  ]
    where
      by_change :
          (change : Option Change) (c : Cache)
          → prepare env db row req no_keys ≡ ok (change, c)
          → Coherent env db c
          → get_customer env id db' ≡ ok x
      by_change (some ch) c p k =
          let direct : update_row env id req row db ≡ write_change env id ch c db =
            rw (p, update_row) refl in
          write_change-get ch c db k (sym direct ∙ h)
      by_change none c p k =
          let direct : update_row env id req row db
              ≡ (value (hydrate_customer_row env db row c), db) =
            rw (p, update_row) refl in
          let both = sym direct ∙ h in
          subst (λ d. get_customer env id d ≡ ok x) (ap (λ p. p.1) both)
            (reads env id db row may up found
              ∙ sym (hydrate_customer_row-Answers env db row c k).same
              ∙ ap (λ p. p.0) both)

-- What an update answers is what is read next: where the versions of a tenant's keys are distinct, an
-- update that answers with a customer is followed by the same answer to a read, whatever it changed.
pub get-update :
    (env : Env) (id : ℕ) (req : UpdateCustomerRequest) (db db' : Db) (x : Customer)
    → OneKey db
    → update_customer env id req db ≡ (ok x, db')
    → get_customer env id db' ≡ ok x
unfolding update_customer
get-update env id req db db' x one h = elim (Bool-cases (has_capability env.sec customer_write)) [
  | inr m ↦ absurd (ground arith)
  | inl m ↦ elim (Bool-cases (env.fails loads_customer)) [
    | inl f ↦ absurd (ground arith)
    | inr f ↦ elim (Option-cases (first (is_customer env.sec.tenant_id id) db.customers)) [
      | inl n ↦ absurd (ground arith)
      | inr (row, n) ↦
          let direct : update_customer env id req db ≡ update_row env id req row db =
            rw (m, f, n, update_customer) refl in
          update_row-get env id x db' (writers_view env.sec m) f req row db one n (sym direct ∙ h)
    ]
  ]
]
