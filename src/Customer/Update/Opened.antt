-- ===== src/Customer/Update/Opened.antt =====
-- What an update seals is opened again.
use text.Mathlib.TextEquality.{eq_iff}
use peanut_pos.Base.{
  ℕ, String, ◌≡◌, refl, sym, ap, subst, ◌∙◌, Bool, true, false, ◌||◌, Bool-cases, ◌⊎◌, inl, inr,
  Option, none, some, List, arith,
}
use peanut_pos.Base.Api.{ok, Result-cases}
use peanut_pos.Base.Lists.{length}
use peanut_pos.Base.Tx.Keeps.{bind-ok}
use peanut_pos.Crypto.{Bytes, nonce_length, encrypt_field}
use peanut_pos.Crypto.RoundTrip.{IsAead, decrypt-encrypt_with_key}
use peanut_pos.Customer.Store.{Customer, CustomerRow, Db, Env, is_some, or_else}
use peanut_pos.Customer.Keys.{
  Cache, no_keys, TenantDek, active, customer_of, load_tenant_dek, key_row, open_text,
}
use peanut_pos.Customer.Keys.Cache.{opened_row, opened_field, key_for}
use peanut_pos.Customer.Keys.Loaded.{active_version}
use peanut_pos.Customer.Keys.Loaded.{OneKey}
use peanut_pos.Customer.Update.{
  UpdateCustomerRequest, Change, existing_field, new_name, final_field, same_text, seal,
  sealed_change, change_for, change_if_new, cleared, prepare,
}

-- A text that is read back from its bytes, as every text of Rust's is.
abbrev pub IsUtf8 : Env → Option String → Type 0
IsUtf8 env none = Unit
IsUtf8 env (some s) = env.from_utf8 (env.as_bytes s) ≡ some s

module _ (env : Env) (aead : IsAead env.lib) (db : Db) where
  opened_text :
      (key nonce blob : Bytes) (v : String)
      → IsUtf8 env (some v)
      → length nonce ≡ nonce_length
      → encrypt_field env.lib key nonce (env.as_bytes v) ≡ ok blob
      → open_text env key blob ≡ ok v
  unfolding open_text
  opened_text key nonce blob v utf8 size made =
      rw
        (
          decrypt-encrypt_with_key env.lib aead key nonce (env.as_bytes v) blob size made,
          utf8,
          open_text,
        )
        refl

  opened_seal :
      (dek : TenantDek) (nonce : Bytes) (v : Option String) (sealed : Option Bytes) (c c' : Cache)
      → IsUtf8 env v
      → length nonce ≡ nonce_length
      → load_tenant_dek env db (some dek.version) ≡ ok dek
      → seal env dek.key nonce v c ≡ ok (sealed, c')
      → opened_field env db sealed (some dek.version) ≡ ok v
  unfolding seal opened_field key_for
  opened_seal dek nonce none sealed c c' utf8 size loaded h =
      let e : none ≡ sealed = ground arith in
      subst (λ s. opened_field env db s (some dek.version) ≡ ok none) e refl
  opened_seal dek nonce (some v) sealed c c' utf8 size loaded h =
      elim (Result-cases (encrypt_field env.lib dek.key nonce (env.as_bytes v))) [
        | inl (x, e) ↦ absurd (ground arith)
        | inr (blob, e) ↦
            let kept : some blob ≡ sealed = ground arith in
            subst (λ s. opened_field env db s (some dek.version) ≡ ok (some v)) kept
              (rw (loaded, opened_text dek.key nonce blob v utf8 size e, opened_field, key_for)
                refl)
      ]

  opened_sealed :
      (name : String) (email phone : Option String) (ch : Change) (c c' : Cache)
      → IsUtf8 env email
      → OneKey db
      → length env.email_nonce ≡ nonce_length
      → sealed_change env db name email phone c ≡ ok (ch, c')
      → opened_field env db ch.email_encrypted ch.version ≡ ok email
  unfolding sealed_change active
  opened_sealed name email phone ch c c' utf8 one size h =
      let (dek, c1, loaded, rest) = bind-ok (active env db) _ c c' ch h in
      let (enc_email, c2, made, rest2) =
        bind-ok (seal env dek.key env.email_nonce email) _ c1 c' ch rest in
      let (enc_phone, c3, made3, last) =
        bind-ok (seal env dek.key env.phone_nonce phone) _ c2 c' ch rest2 in
      let key : load_tenant_dek env db none ≡ ok dek = ground arith in
      let sealed : enc_email ≡ ch.email_encrypted = ground arith in
      let version : some dek.version ≡ ch.version = ground arith in
      subst (λ v. opened_field env db ch.email_encrypted v ≡ ok email) version
        (subst (λ s. opened_field env db s (some dek.version) ≡ ok email) sealed
          (opened_seal dek env.email_nonce email enc_email c1 c2 utf8 size
            (active_version env db dek one key) made))

  -- The email of a change is opened with the key of its version.
  pub opened_change :
      (name : String) (email phone : Option String) (ch : Change) (c c' : Cache)
      → IsUtf8 env email
      → OneKey db
      → length env.email_nonce ≡ nonce_length
      → change_for env db name email phone c ≡ ok (ch, c')
      → opened_field env db ch.email_encrypted ch.version ≡ ok email
  unfolding change_for opened_field
  opened_change name email phone ch c c' utf8 one size h =
      elim (Bool-cases (is_some email || is_some phone)) [
        | inl b ↦
            opened_sealed name email phone ch c c' utf8 one size (sym (rw (b, change_for) refl) ∙ h)
        | inr b ↦
            let plain : change_for env db name email phone c ≡ ok (cleared name, c) =
              rw (b, change_for) refl in
            let both = sym plain ∙ h in
            let same : cleared name ≡ ch = cc in
            let nothing : email ≡ none = ground arith in
            subst (λ (x : Change). opened_field env db x.email_encrypted x.version ≡ ok email) same
              (rw nothing refl)
      ]

  pub made_change :
      (unchanged : Bool) (name : String) (email phone : Option String) (change : Option Change)
      (c c' : Cache)
      → change_if_new env db unchanged name email phone c ≡ ok (change, c')
      → (change ≡ none) × (unchanged ≡ true)
        ⊎ ((ch : Change) × (c2 : Cache) × (change ≡ some ch)
            × (change_for env db name email phone c ≡ ok (ch, c2)))
  unfolding change_if_new
  made_change true name email phone change c c' h = inl (ground arith, refl)
  made_change false name email phone change c c' h =
      let (ch, c2, made, last) = bind-ok (change_for env db name email phone) _ c c' change h in
      inr (ch, c2, ground arith, made)

  -- What a prepared change has to do with the row: nothing is written where the email is as it was.
  pub prepared :
      (row : CustomerRow) (req : UpdateCustomerRequest) (change : Option Change) (c' : Cache)
      → prepare env db row req no_keys ≡ ok (change, c')
      → (old : Option String) × (name : String) × (phone : Option String) × (unchanged : Bool) × (c1
          c3 : Cache)
        × (existing_field env db row.email row.email_encrypted row.pii_key_version no_keys
            ≡ ok (old, c1))
        × (unchanged ≡ true → same_text (final_field env req.email old) old ≡ true)
        × (change_if_new env db unchanged name (final_field env req.email old) phone c3
            ≡ ok (change, c'))
  unfolding prepare
  prepared row req change c' h =
      let (old, c1, first_read, rest) =
        bind-ok (existing_field env db row.email row.email_encrypted row.pii_key_version) _ no_keys
          c' change h in
      let (old_phone, c2, second_read, rest2) =
        bind-ok (existing_field env db row.phone row.phone_encrypted row.pii_key_version) _ c1 c'
          change rest in
      let (name, c3, named, rest3) =
        bind-ok (new_name env row.name req.name) _ c2 c' change rest2 in
      (
        old,
        name,
        final_field env req.phone old_phone,
        _,
        c1,
        c3,
        first_read,
        (λ u. ground arith),
        rest3,
      )

pub or_else-none : (e : Option String) → or_else e none ≡ e
or_else-none none = refl
or_else-none (some s) = refl

pub same_text-eq : (a b : Option String) → same_text a b ≡ true → a ≡ b
same_text-eq none none h = refl
same_text-eq (some a) (some b) h = ap some ((eq_iff a b).0 h)
same_text-eq none (some b) h = cc
same_text-eq (some a) none h = cc

pub opened_row-email :
    (env : Env) (db : Db) (row : CustomerRow) (x : Customer) (e : Option String)
    → opened_row env db row ≡ ok x
    → opened_field env db row.email_encrypted row.pii_key_version ≡ ok e
    → x.email ≡ or_else e row.email
unfolding opened_row
opened_row-email env db row x e h k =
    elim (Result-cases (opened_field env db row.phone_encrypted row.pii_key_version)) [
      | inl (z, p) ↦ absurd (ground arith)
      | inr (phone, p) ↦
          let direct : opened_row env db row ≡ ok (customer_of row e phone) =
            rw (k, p, opened_row) refl in
          let both = sym direct ∙ h in
          let same : customer_of row e phone ≡ x = ground arith in
          sym (ap (λ (c : Customer). c.email) same)
    ]

pub moved_field :
    (env : Env) (db : Db) (rows : List CustomerRow) (sealed : Option Bytes) (version : Option ℕ)
    → opened_field env (record db { customers = rows }) sealed version
      ≡ opened_field env db sealed version
unfolding opened_field key_for load_tenant_dek key_row
moved_field env db rows none version = refl
moved_field env db rows (some b) none = refl
moved_field env db rows (some b) (some v) = refl
