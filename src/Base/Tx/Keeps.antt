-- ===== src/Base/Tx/Keeps.antt =====
-- Invariants of database work: one rule for each way to build it.
use mathlib.Core.Path.{◌≡◌, refl}
use mathlib.Core.Bool.{Bool, true, false}
use mathlib.Core.Option.{Option, none, some}
use native.Mathlib.Omega.{arith}
use peanut_pos.Base.Api.{Result, ok, err, ApiError}
use peanut_pos.Base.Tx.{
  Tx, ◌>>=◌, pure, raise, gets, attempt, require, some_or, commit, transaction,
}

-- Where the work succeeds, it leads from a state with the property to one with it.
pub record Keeps {S A : Type 0} (P : S → Type 0) (m : Tx S A) : Type 0 where
  pub at : (s s' : S) (a : A) → m s ≡ ok (a, s') → P s → P s'

module _ {S A : Type 0} {P : S → Type 0} where
  pub Keeps-pure : (a : A) → Keeps P (pure a)
  Keeps-pure a = record { at = λ s s' b h p. let e : s ≡ s' = ground arith in rw e at p }

  pub Keeps-gets : (f : S → A) → Keeps P (gets f)
  Keeps-gets f = record { at = λ s s' b h p. let e : s ≡ s' = ground arith in rw e at p }

  pub Keeps-raise : (e : ApiError) → Keeps P (raise {A = A} e)
  Keeps-raise e = record { at = λ s s' b h p. cc }

  pub Keeps-attempt : (failed : Bool) (m : Tx S A) → Keeps P m → Keeps P (attempt failed m)
  Keeps-attempt true m k = record { at = λ s s' b h p. cc }
  Keeps-attempt false m k = k

  -- A transaction that fails leaves the state, and one that succeeds keeps the property.
  pub transaction_keeps : (m : Tx S A) (s : S) → Keeps P m → P s → P (transaction m s).1
  transaction_keeps m s k p = by_result (m s) refl
    where
      by_result : (r : Result ApiError (A × S)) → m s ≡ r → P (commit s r).1
      by_result (ok (a, s')) e = k.at s s' a e p
      by_result (err x) e = p

pub Keeps-require : {S : Type 0} {P : S → Type 0} (b : Bool) (e : ApiError) → Keeps P (require b e)
Keeps-require true e = record { at = λ s s' b h p. let q : s ≡ s' = ground arith in rw q at p }
Keeps-require false e = record { at = λ s s' b h p. cc }

pub Keeps-some_or :
    {S A : Type 0} {P : S → Type 0} (e : ApiError) (o : Option A) → Keeps P (some_or e o)
Keeps-some_or e none = record { at = λ s s' b h p. cc }
Keeps-some_or e (some a) = record { at = λ s s' b h p. let q : s ≡ s' = ground arith in rw q at p }

module _ {S A B : Type 0} {P : S → Type 0} where
  pub Keeps-bind :
      (m : Tx S A) (f : A → Tx S B) → Keeps P m → ((a : A) → Keeps P (f a)) → Keeps P (m >>= f)
  Keeps-bind m f km kf = record { at = λ s s' b h p. by_result s s' b (m s) refl h p }
    where
      by_result :
          (s s' : S) (b : B) (r : Result ApiError (A × S))
          → m s ≡ r
          → (elim r [ ok (a, t) ↦ f a t | err e ↦ err e ]) ≡ ok (b, s')
          → P s
          → P s'
      by_result s s' b (ok (a, t)) e h p = (kf a).at t s' b h (km.at s t a e p)
      by_result s s' b (err x) e h p = cc

pub ruleset keeps_rules =
    (Keeps-pure, Keeps-gets, Keeps-raise, Keeps-attempt, Keeps-require, Keeps-some_or, Keeps-bind)

-- The two halves of work that succeeds.
pub bind-ok :
    {S A B : Type 0} (m : Tx S A) (f : A → Tx S B) (s s' : S) (b : B)
    → (m >>= f) s ≡ ok (b, s')
    → (a : A) × (t : S) × (m s ≡ ok (a, t)) × (f a t ≡ ok (b, s'))
bind-ok {S} {A} {B} m f s s' b h = by_result (m s) refl h
  where
    by_result :
        (r : Result ApiError (A × S))
        → m s ≡ r
        → (elim r [ ok (a, t) ↦ f a t | err e ↦ err e ]) ≡ ok (b, s')
        → (a : A) × (t : S) × (m s ≡ ok (a, t)) × (f a t ≡ ok (b, s'))
    by_result (ok (a, t)) e k = (a, t, e, k)
    by_result (err x) e k = cc
