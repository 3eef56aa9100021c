-- ===== src/Gateway/RateLimiter.antt =====
-- services/integration-gateway/src/rate_limiter.rs: the fixed-window limiter in memory. Instants are
-- numbers that do not decrease, so that `duration_since` is a difference, and the counter is not
-- followed past the range of an i64. The Redis engine calls a server and is not modelled.
use text.Mathlib.Text.{◌==◌ as str_eq}
use text.Mathlib.TextEquality.{eq_iff}
use peanut_pos.Base.{
  ℕ, suc, String, ◌+◌, ◌-◌, ◌≤◌, ◌<◌, ◌≡◌, refl, sym, subst, ◌∙◌, Bool, Bool-cases, inl, inr, true,
  false, Option, none, some, List, [], ◌∷◌, leb, arith, if◌then◌else◌,
}

pub record Entry : Type 0 where
  pub current : ℕ
  pub start : ℕ

abbrev pub Limiter : Type 0
Limiter = String → Option Entry

pub record RateDecision : Type 0 where
  pub allowed : Bool
  pub current : ℕ

-- `or_insert((0, now))`, then the reset of a window that is over.
unfoldable pub opened : ℕ → ℕ → Option Entry → Entry
opened window now none = record { current = 0; start = now }
opened window now (some e) =
    if leb window (now - e.start) then record { current = 0; start = now } else e

unfoldable pub counted : Entry → Entry
counted e = record e { current = suc e.current }

unfoldable pub check : ℕ → ℕ → String → ℕ → Limiter → RateDecision × Limiter
unfolding opened counted
check window now key limit m =
    let e = counted (opened window now (m key)) in
    (
      record { allowed = leb e.current limit; current = e.current },
      λ k. if str_eq key k then some e else m k,
    )

pub record Request : Type 0 where
  pub key : String
  pub at : ℕ

-- How many requests of one key are allowed in a run of requests of all keys.
unfoldable pub allowed_for : ℕ → ℕ → String → List Request → Limiter → ℕ
unfolding check
allowed_for window limit key [] m = 0
allowed_for window limit key (r ∷ rs) m =
    let rest = allowed_for window limit key rs (check window r.at r.key limit m).1 in
    if str_eq r.key key
    then (if (check window r.at r.key limit m).0.allowed then suc rest else rest)
    else rest

-- Every request lies in the window that starts at an instant.
abbrev pub Within : ℕ → ℕ → List Request → Type 0
Within start window [] = Unit
Within start window (r ∷ rs) = ((start ≤ r.at) × (r.at < start + window)) × Within start window rs

other_key :
    (window limit : ℕ) (key : String) (r : Request) (m : Limiter)
    → str_eq r.key key ≡ false
    → (check window r.at r.key limit m).1 key ≡ m key
unfolding check
other_key window limit key r m h = rw h refl

still_open :
    (window now : ℕ) (e : Entry)
    → e.start ≤ now
    → now < e.start + window
    → opened window now (some e) ≡ e
unfolding opened
still_open window now e k h = ground arith

same_key :
    (window limit : ℕ) (key : String) (r : Request) (m : Limiter) (e : Entry)
    → str_eq r.key key ≡ true
    → m key ≡ some e
    → e.start ≤ r.at
    → r.at < e.start + window
    → ((check window r.at r.key limit m).0.allowed ≡ leb (suc e.current) limit)
      × ((check window r.at r.key limit m).1 key ≡ some (counted e))
unfolding check counted
same_key window limit key r m e same found late early =
    let at_key : m r.key ≡ some e =
      subst (λ k. m k ≡ some e) (sym ((eq_iff r.key key).0 same)) found in
    (
      rw (at_key, still_open window r.at e late early) refl,
      rw (same, at_key, still_open window r.at e late early) refl,
    )

one_more :
    (b : Bool) (c limit n : ℕ)
    → b ≡ leb (suc c) limit
    → n ≤ limit - suc c
    → (if b then suc n else n) ≤ limit - c
one_more b c limit n e h = ground arith

-- Of the requests of a key that come in its open window, among requests of any keys, at most as
-- many are allowed as the limit leaves.
pub allowed_in_window :
    (window limit : ℕ) (key : String) (rs : List Request) (m : Limiter) (e : Entry)
    → m key ≡ some e
    → Within e.start window rs
    → allowed_for window limit key rs m ≤ limit - e.current
unfolding allowed_for
allowed_in_window window limit key [] m e found before = omega arith
allowed_in_window window limit key (r ∷ rs) m e found ((late, early), before) =
    elim (Bool-cases (str_eq r.key key)) [
      | inl same ↦
          let (verdict, next) = same_key window limit key r m e same found late early in
          let rest =
            allowed_in_window window limit key rs (check window r.at r.key limit m).1 (counted e)
              next before in
          rw (allowed_for, same)
            (one_more (check window r.at r.key limit m).0.allowed e.current limit
              (allowed_for window limit key rs (check window r.at r.key limit m).1) verdict rest)
      | inr other ↦
          let next = other_key window limit key r m other ∙ found in
          let rest =
            allowed_in_window window limit key rs (check window r.at r.key limit m).1 e next
              before in
          rw (allowed_for, other) rest
    ]
