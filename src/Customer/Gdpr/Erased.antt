-- ===== src/Customer/Gdpr/Erased.antt =====
-- What is left of a customer who is erased.
use peanut_pos.Base.{
  ℕ, ◌≡◌, refl, sym, ap, subst, ◌∙◌, Bool, true, false, none, ◌&&◌, ◌||◌, Bool-cases, Option-cases,
  inl, inr, some, List, [], ◌∷◌, ◌++◌, ◌==◌, arith,
}
use peanut_pos.Base.Api.{ok, Result-cases}
use peanut_pos.Base.Lists.{any}
use peanut_pos.Base.Table.{first, update, first-update_ne, first-update_hit, first-holds}
use peanut_pos.Base.Tx.{Tx, attempt, pure}
use peanut_pos.Base.Tx.Keeps.{bind-ok}
use peanut_pos.Security.Policy.{customer_write, has_capability}
use peanut_pos.Customer.Store.{
  CustomerRow, Tombstone, Db, Env, loads_customer, begin, erases, writes_tombstone, commits,
  is_customer, is_some,
}
use peanut_pos.Customer.Gdpr.{
  found_customer, erased, erase, tombstone, insert_gdpr_tombstone, delete_tx, gdpr_delete_customer,
}

-- A row that says nothing of its customer but its ids and when it was made.
pub record Anonymous (was r : CustomerRow) : Type 0 where
  pub id : r.id ≡ was.id
  pub tenant_id : r.tenant_id ≡ was.tenant_id
  pub created_at : r.created_at ≡ was.created_at
  pub name : r.name ≡ "[deleted]"
  pub email : (r.email ≡ none) × (r.email_encrypted ≡ none) × (r.email_hash ≡ none)
  pub phone : (r.phone ≡ none) × (r.phone_encrypted ≡ none) × (r.phone_hash ≡ none)
  pub key : (r.pii_key_version ≡ none) × (r.pii_encrypted_at ≡ none)

-- The row that is left, and the tombstone; the rows of others, and the data keys, are as they were.
pub record Erased (env : Env) (id : ℕ) (db db' : Db) (tombstone_id : ℕ) : Type 0 where
  pub row : CustomerRow
  pub was : first (is_customer env.sec.tenant_id id) db.customers ≡ some row
  pub left :
      (r : CustomerRow) × (first (is_customer env.sec.tenant_id id) db'.customers ≡ some r)
      × Anonymous row r
  pub others :
      (t i : ℕ)
      → ((env.sec.tenant_id == t) && (id == i)) ≡ false
      → first (is_customer t i) db'.customers ≡ first (is_customer t i) db.customers
  pub keys : db'.keys ≡ db.keys
  pub logged :
      (t : Tombstone) × (db'.tombstones ≡ db.tombstones ++ t ∷ [])
      × (t.id ≡ tombstone_id)
      × (t.customer_id ≡ some id)
      × (t.request_type ≡ "delete")

erased_others :
    (t i t' i' : ℕ) (rows : List CustomerRow)
    → ((t == t') && (i == i')) ≡ false
    → first (is_customer t' i') (update (is_customer t i) erased rows)
      ≡ first (is_customer t' i') rows
erased_others t i t' i' rows h =
    first-update_ne (is_customer t' i') (is_customer t i) erased rows (λ r. refl)
      (λ r k. ground arith)

attempt-ok :
    {S A : Type 0} (failed : Bool) (m : Tx S A) (s s' : S) (a : A)
    → attempt failed m s ≡ ok (a, s')
    → m s ≡ ok (a, s')
attempt-ok true m s s' a h = cc
attempt-ok false m s s' a h = h

pub found_row :
    (env : Env) (id : ℕ) (db db' : Db) (row : CustomerRow)
    → found_customer env id db ≡ ok (row, db')
    → (db ≡ db') × (first (is_customer env.sec.tenant_id id) db.customers ≡ some row)
unfolding found_customer
found_row env id db db' row h = elim (Bool-cases (has_capability env.sec customer_write)) [
  | inr m ↦ absurd (ground arith)
  | inl m ↦ elim (Bool-cases (env.fails loads_customer)) [
    | inl f ↦ absurd (ground arith)
    | inr f ↦ elim (Option-cases (first (is_customer env.sec.tenant_id id) db.customers)) [
      | inl n ↦ absurd (ground arith)
      | inr (r, n) ↦
          let direct : found_customer env id db ≡ ok (r, db) = rw (m, f, n, found_customer) refl in
          let both = sym direct ∙ h in let same : r ≡ row = cc in (cc, n ∙ ap some same)
    ]
  ]
]

blank : (row : CustomerRow) → Anonymous row (erased row)
blank row = record {
  id = refl;
  tenant_id = refl;
  created_at = refl;
  name = refl;
  email = (refl, refl, refl);
  phone = (refl, refl, refl);
  key = (refl, refl);
}

erase-Erased :
    (env : Env) (id tid : ℕ) (db d : Db) (row : CustomerRow) (t : Tombstone)
    → first (is_customer env.sec.tenant_id id) db.customers ≡ some row
    → erase env id db ≡ ok (tt, d)
    → t.id ≡ tid
    → t.customer_id ≡ some id
    → t.request_type ≡ "delete"
    → Erased env id db (record d { tombstones = d.tombstones ++ t ∷ [] }) tid
unfolding erase
erase-Erased env id tid db d row t found h at_id at_customer at_type =
    let mine = is_customer env.sec.tenant_id id in
    elim (Bool-cases (any mine db.customers)) [
      | inr b ↦ absurd (ground arith)
      | inl b ↦
          let direct : erase env id db
              ≡ ok (tt, record db { customers = update mine erased db.customers }) =
            rw (b, erase) refl in
          let both = sym direct ∙ h in
          let same : record db { customers = update mine erased db.customers } ≡ d = ground arith in
          subst (λ x. Erased env id db (record x { tombstones = x.tombstones ++ t ∷ [] }) tid) same
            (record {
              row = row;
              was = found;
              left = (
                erased row,
                first-update_hit mine mine erased db.customers row (λ r. refl) found
                    (first-holds mine db.customers row found),
                blank row,
              );
              others = λ t' i' h. erased_others env.sec.tenant_id id t' i' db.customers h;
              keys = refl;
              logged = (t, refl, at_id, at_customer, at_type);
            })
    ]

delete_tx-Erased :
    (env : Env) (id tid : ℕ) (db db' : Db)
    → delete_tx env id db ≡ ok (tid, db')
    → Erased env id db db' tid
unfolding delete_tx insert_gdpr_tombstone
delete_tx-Erased env id tid db db' h =
    let (row, d0, loaded, r1) = bind-ok (found_customer env id) _ db db' tid h in
    let (at_db, found) = found_row env id db d0 row loaded in
    let (u, d1, begun, r2) = bind-ok (attempt (env.fails begin) (pure tt)) _ d0 db' tid r1 in
    let (u', d2, gone, r3) = bind-ok (attempt (env.fails erases) (erase env id)) _ d1 db' tid r2 in
    let t =
      tombstone env id "delete" "completed" (is_some row.email || is_some row.email_encrypted)
        (is_some row.phone || is_some row.phone_encrypted) in
    let (tid', d3, logged, r4) =
      bind-ok (attempt (env.fails writes_tombstone) (insert_gdpr_tombstone env t)) _ d2 db' tid
        r3 in
    let same1 : d0 ≡ d1 =
      let e = attempt-ok (env.fails begin) (pure tt) d0 d1 u begun in ground arith in
    let written =
      attempt-ok (env.fails writes_tombstone) (insert_gdpr_tombstone env t) d2 d3 tid' logged in
    let named : t.id ≡ tid' = ground arith in
    let same3 : record d2 { tombstones = d2.tombstones ++ t ∷ [] } ≡ d3 = ground arith in
    let done = attempt-ok (env.fails commits) (pure tid') d3 db' tid r4 in
    let same4 : d3 ≡ db' = ground arith in
    let named' : tid' ≡ tid = ground arith in
    let erasing = attempt-ok (env.fails erases) (erase env id) d1 d2 u' gone in
    let from_db : erase env id db ≡ ok (tt, d2) =
      subst (λ x. erase env id x ≡ ok (tt, d2)) (sym (at_db ∙ same1)) erasing in
    subst (λ x. Erased env id db x tid) (same3 ∙ same4)
      (erase-Erased env id tid db d2 row t found from_db (named ∙ named') refl refl)

-- An erasure that answers leaves of the customer's row no name, email, phone, ciphertext, hash or key
-- version, and one more tombstone, with the id answered, for that customer; the rows found for other
-- tenants and ids, and the data keys, are as they were.
pub gdpr_delete_customer-Erased :
    (env : Env) (id tid : ℕ) (db db' : Db)
    → gdpr_delete_customer env id db ≡ (ok tid, db')
    → Erased env id db db' tid
unfolding gdpr_delete_customer
gdpr_delete_customer-Erased env id tid db db' h = elim (Result-cases (delete_tx env id db)) [
  | inl (e, k) ↦ absurd (ground arith)
  | inr ((tid', d), k) ↦
      let direct : gdpr_delete_customer env id db ≡ (ok tid', d) =
        rw (k, gdpr_delete_customer) refl in
      let both = sym direct ∙ h in
      delete_tx-Erased env id tid db db' (
        k
        ∙ ap ok
            (let a : tid' ≡ tid = ground arith in let b : d ≡ db' = ground arith in ground arith))
]
