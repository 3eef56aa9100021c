-- ===== src/Customer/Keys/Loaded.antt =====
-- The keys that a tenant's rows hold: a version has one key, and the active key is that of its version.
use peanut_pos.Base.{
  ℕ, ◌≡◌, sym, subst, Bool, true, false, ◌&&◌, Bool-cases, Option-cases, inl, inr, Option, none,
  some, List, [], ◌∷◌, ◌==◌, ltb, arith,
}
use peanut_pos.Base.Api.{ok}
use peanut_pos.Base.Lists.{All}
use peanut_pos.Base.Table.{first, select, first-holds}
use peanut_pos.Customer.Store.{TenantKeyRow, Db, Env, loads_key}
use peanut_pos.Customer.Keys.{is_version, newest, key_row, open_dek, load_tenant_dek, TenantDek}

-- The unique index on (tenant_id, key_version).
abbrev pub OneKey : Db → Type 0
OneKey db = All (λ r. first (is_version r.tenant_id r.key_version) db.keys ≡ some r) db.keys

load_inversion :
    (env : Env) (db : Db) (version : Option ℕ) (dek : TenantDek)
    → load_tenant_dek env db version ≡ ok dek
    → (r : TenantKeyRow) × (env.fails loads_key ≡ false)
      × (key_row env db version ≡ some r)
      × (open_dek env r ≡ ok dek)
unfolding load_tenant_dek
load_inversion env db version dek h = elim (Option-cases (key_row env db version)) [
  | inl e ↦ absurd (ground arith)
  | inr (r, e) ↦ (r, ground arith, e, ground arith)
]

open_dek-version :
    (env : Env) (r : TenantKeyRow) (dek : TenantDek)
    → open_dek env r ≡ ok dek
    → dek.version ≡ r.key_version
unfolding open_dek
open_dek-version env r dek h = ground arith

pub loaded_version :
    (env : Env) (db : Db) (v : ℕ) (dek : TenantDek)
    → load_tenant_dek env db (some v) ≡ ok dek
    → dek.version ≡ v
unfolding key_row
loaded_version env db v dek h =
    let (r, f, e, o) = load_inversion env db (some v) dek h in
    let found = first-holds (is_version env.sec.tenant_id v) db.keys r e in
    let same = open_dek-version env r dek o in ground arith

newest-All :
    (P : TenantKeyRow → Type 0) (rows : List TenantKeyRow) (r : TenantKeyRow)
    → All P rows
    → newest rows ≡ some r
    → P r
unfolding newest
newest-All P [] r h e = absurd (ground arith)
newest-All P (x ∷ rows) r (h, hs) e = elim (Option-cases (newest rows)) [
  | inl n ↦ let same : x ≡ r = ground arith in subst P same h
  | inr (q, n) ↦ elim (Bool-cases (ltb x.key_version q.key_version)) [
    | inl l ↦ let same : q ≡ r = ground arith in subst P same (newest-All P rows q hs n)
    | inr l ↦ let same : x ≡ r = ground arith in subst P same h
  ]
]

select-All :
    (P : TenantKeyRow → Type 0) (p : TenantKeyRow → Bool) (rows : List TenantKeyRow)
    → All P rows
    → All (λ r. P r × (p r ≡ true)) (select p rows)
unfolding select
select-All P p [] h = tt
select-All P p (r ∷ rows) (h, hs) = elim (Bool-cases (p r)) [
  | inl e ↦ rw e ((h, e), select-All P p rows hs)
  | inr e ↦ rw e (select-All P p rows hs)
]

-- The active key is also the key of its version.
pub active_version :
    (env : Env) (db : Db) (dek : TenantDek)
    → OneKey db
    → load_tenant_dek env db none ≡ ok dek
    → load_tenant_dek env db (some dek.version) ≡ ok dek
unfolding load_tenant_dek key_row
active_version env db dek one h =
    let (r, f, e, o) = load_inversion env db none dek h in
    let (only, mine) =
      newest-All
        (λ r.
          (first (is_version r.tenant_id r.key_version) db.keys ≡ some r)
          × (((r.tenant_id == env.sec.tenant_id) && r.active) ≡ true))
        (select (λ r. (r.tenant_id == env.sec.tenant_id) && r.active) db.keys) r
        (select-All _ (λ r. (r.tenant_id == env.sec.tenant_id) && r.active) db.keys one) e in
    let tenant : r.tenant_id ≡ env.sec.tenant_id = ground arith in
    let row : first (is_version env.sec.tenant_id dek.version) db.keys ≡ some r =
      subst (λ v. first (is_version env.sec.tenant_id v) db.keys ≡ some r)
        (sym (open_dek-version env r dek o))
        (subst (λ t. first (is_version t r.key_version) db.keys ≡ some r) tenant only) in
    rw (f, row) o
