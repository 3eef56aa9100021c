-- ===== src/Customer/Keys/Cache.antt =====
-- The cache of keys changes no answer.
use peanut_pos.Base.{
  ℕ, String, ◌≡◌, refl, sym, ap, subst, ◌∙◌, Bool-cases, Option-cases, ◌⊎◌, inl, inr, Option, none,
  some, ◌==◌, ==_iff, arith,
}
use peanut_pos.Base.Api.{ApiError, internal, Result, ok, err, Result-cases}
use peanut_pos.Base.Tx.{◌>>=◌}
use peanut_pos.Crypto.{Bytes}
use peanut_pos.Customer.Store.{Customer, CustomerRow, Db, Env}
use peanut_pos.Customer.Keys.{
  Cache, no_keys, insert, or_insert, load_tenant_dek, active, by_version, open_text,
  decrypt_optional_field, hydrate_customer_row, customer_of, value, TenantDek,
}
use peanut_pos.Customer.Keys.Loaded.{OneKey, loaded_version, active_version}

-- What is cached is what the table would answer.
abbrev pub Coherent : Env → Db → Cache → Type 0
Coherent env db c =
    (v : ℕ) (key : Bytes)
    → c v ≡ some key
    → load_tenant_dek env db (some v) ≡ ok (record { version = v; key = key })

pub no_keys-Coherent : (env : Env) (db : Db) → Coherent env db no_keys
no_keys-Coherent env db v key h = ground arith

-- The answers without a cache.
unfoldable pub key_for : Env → Db → ℕ → Result ApiError Bytes
unfolding load_tenant_dek
key_for env db v = elim (load_tenant_dek env db (some v)) [ err e ↦ err e | ok dek ↦ ok dek.key ]

unfoldable pub opened_field : Env → Db → Option Bytes → Option ℕ → Result ApiError (Option String)
unfolding key_for open_text
opened_field env db none version = ok none
opened_field env db (some sealed) none = err internal
opened_field env db (some sealed) (some v) = elim (key_for env db v) [
  | err e ↦ err e
  | ok key ↦ elim (open_text env key sealed) [ err e ↦ err e | ok s ↦ ok (some s) ]
]

unfoldable pub opened_row : Env → Db → CustomerRow → Result ApiError Customer
unfolding opened_field
opened_row env db row = elim (opened_field env db row.email_encrypted row.pii_key_version) [
  | err e ↦ err e
  | ok email ↦ elim (opened_field env db row.phone_encrypted row.pii_key_version) [
    | err e ↦ err e
    | ok phone ↦ ok (customer_of row email phone)
  ]
]

-- A step that answers as the plain function does and leaves a coherent cache.
pub record Answers (env : Env) (db : Db) {A : Type 0} (r : Result ApiError (A × Cache))
    (plain : Result ApiError A) : Type 0 where
  pub same : value r ≡ plain
  pub kept : (a : A) (c : Cache) → r ≡ ok (a, c) → Coherent env db c

module _ (env : Env) (db : Db) {A : Type 0} where
  answered :
      (r : Result ApiError (A × Cache)) (plain : Result ApiError A) (a : A) (c : Cache)
      → r ≡ ok (a, c)
      → plain ≡ ok a
      → Coherent env db c
      → Answers env db r plain
  answered r plain a c h p k = record {
    same = rw (h, p) refl;
    kept = λ a' c' e. let eq : c ≡ c' = cc in subst (Coherent env db) eq k;
  }

  refused :
      (r : Result ApiError (A × Cache)) (plain : Result ApiError A) (e : ApiError)
      → r ≡ err e
      → plain ≡ err e
      → Answers env db r plain
  refused r plain e h p = record { same = rw (h, p) refl; kept = λ a c k. absurd (ground arith) }

  -- What a step that answers as the plain function can be.
  Answers-cases :
      (r : Result ApiError (A × Cache)) (plain : Result ApiError A)
      → Answers env db r plain
      → ((e : ApiError) × (r ≡ err e) × (plain ≡ err e))
        ⊎ ((a : A) × (c : Cache) × (r ≡ ok (a, c)) × (plain ≡ ok a) × Coherent env db c)
  Answers-cases (err e) plain h = inl (e, refl, sym h.same)
  Answers-cases (ok (a, c)) plain h = inr (a, c, refl, sym h.same, h.kept a c refl)

module _ (env : Env) (db : Db) where
  insert-Coherent :
      (v : ℕ) (key : Bytes) (c : Cache)
      → load_tenant_dek env db (some v) ≡ ok (record { version = v; key = key })
      → Coherent env db c
      → Coherent env db (insert v key c)
  insert-Coherent v key c h k w key' e = elim (Bool-cases (w == v)) [
    | inl s ↦
        let at : w ≡ v = (==_iff w v).0 s in
        let same : key ≡ key' = ground arith in
        subst (λ x. load_tenant_dek env db (some x) ≡ ok (record { version = x; key = key' }))
          (sym at)
          (subst (λ x. load_tenant_dek env db (some v) ≡ ok (record { version = v; key = x })) same
            h)
    | inr s ↦ k w key' (ground arith)
  ]

  or_insert-Coherent :
      (v : ℕ) (key : Bytes) (c : Cache)
      → load_tenant_dek env db (some v) ≡ ok (record { version = v; key = key })
      → Coherent env db c
      → Coherent env db (or_insert v key c)
  or_insert-Coherent v key c h k w key' e = elim (Option-cases (c v)) [
    | inl n ↦ insert-Coherent v key c h k w key' (ground arith)
    | inr (old, n) ↦ elim (Bool-cases (w == v)) [
      | inl s ↦ let at : w ≡ v = (==_iff w v).0 s in k w key' (ap c at ∙ ground arith)
      | inr s ↦ k w key' (ground arith)
    ]
  ]

  pub by_version-Answers :
      (v : ℕ) (c : Cache)
      → Coherent env db c
      → Answers env db (by_version env db v c) (key_for env db v)
  unfolding by_version key_for
  by_version-Answers v c k = elim (Option-cases (c v)) [
    | inr (key, e) ↦
        answered env db _ _ key c (rw (e, by_version) refl) (rw (k v key e, key_for) refl) k
    | inl e ↦ elim (Result-cases (load_tenant_dek env db (some v))) [
      | inl (x, h) ↦ refused env db _ _ x (rw (e, h, by_version) refl) (rw (h, key_for) refl)
      | inr (dek, h) ↦
          let same : dek.version ≡ v = loaded_version env db v dek h in
          answered env db _ _ dek.key (insert dek.version dek.key c) (rw (e, h, by_version) refl)
            (rw (h, key_for) refl)
            (insert-Coherent dek.version dek.key c
              (subst
                (λ w.
                  load_tenant_dek env db (some w)
                  ≡ ok (record { version = dek.version; key = dek.key }))
                (sym same) h)
              k)
    ]
  ]

  pub field-Answers :
      (sealed : Option Bytes) (version : Option ℕ) (c : Cache)
      → Coherent env db c
      → Answers env db
          (decrypt_optional_field env db sealed version c)
          (opened_field env db sealed version)
  unfolding decrypt_optional_field opened_field
  field-Answers none version c k = answered env db _ _ none c refl refl k
  field-Answers (some sealed) none c k = refused env db _ _ internal refl refl
  field-Answers (some sealed) (some v) c k =
      elim (Answers-cases env db _ _ (by_version-Answers v c k)) [
        | inl (x, h, p) ↦
            refused env db _ _ x (rw (h, decrypt_optional_field) refl) (rw (p, opened_field) refl)
        | inr (key, c', h, p, k') ↦ elim (Result-cases (open_text env key sealed)) [
          | inl (x, o) ↦
              refused env db _ _ x (rw (h, o, decrypt_optional_field) refl)
                (rw (p, o, opened_field) refl)
          | inr (s, o) ↦
              answered env db _ _ (some s) c' (rw (h, o, decrypt_optional_field) refl)
                (rw (p, o, opened_field) refl) k'
        ]
      ]

  -- With a cache that holds what the table would answer, a row is opened as without one, and the cache
  -- goes on to hold that.
  pub hydrate_customer_row-Answers :
      (row : CustomerRow) (c : Cache)
      → Coherent env db c
      → Answers env db (hydrate_customer_row env db row c) (opened_row env db row)
  unfolding hydrate_customer_row opened_row
  hydrate_customer_row-Answers row c k =
      elim (Answers-cases env db _ _ (field-Answers row.email_encrypted row.pii_key_version c k)) [
        | inl (x, h, p) ↦
            refused env db _ _ x (rw (h, hydrate_customer_row, ◌>>=◌) refl)
              (rw (p, opened_row) refl)
        | inr (email, c', h, p, k') ↦
            elim (Answers-cases env db _ _
              (field-Answers row.phone_encrypted row.pii_key_version c' k')) [
                | inl (x, h', p') ↦
                    refused env db _ _ x (rw (h, h', hydrate_customer_row, ◌>>=◌) refl)
                      (rw (p, p', opened_row) refl)
                | inr (phone, c'', h', p', k'') ↦
                    answered env db _ _ (customer_of row email phone) c''
                      (rw (h, h', hydrate_customer_row, ◌>>=◌) refl) (rw (p, p', opened_row) refl)
                      k''
              ]
      ]

  pub active-Coherent :
      (c : Cache) (dek : TenantDek) (c' : Cache)
      → OneKey db
      → Coherent env db c
      → active env db c ≡ ok (dek, c')
      → (load_tenant_dek env db none ≡ ok dek) × Coherent env db c'
  unfolding active
  active-Coherent c dek c' one k h = elim (Result-cases (load_tenant_dek env db none)) [
    | inl (x, e) ↦ absurd (ground arith)
    | inr (dek', e) ↦
        let same : dek' ≡ dek = ground arith in
        let loaded : load_tenant_dek env db none ≡ ok dek =
          subst (λ d. load_tenant_dek env db none ≡ ok d) same e in
        let cached : or_insert dek.version dek.key c ≡ c' =
          let direct : active env db c ≡ ok (dek, or_insert dek.version dek.key c) =
            rw (loaded, active) refl in
          let both = sym direct ∙ h in cc in
        (
          loaded,
          subst (Coherent env db) cached
              (or_insert-Coherent dek.version dek.key c (active_version env db dek one loaded) k),
        )
  ]
