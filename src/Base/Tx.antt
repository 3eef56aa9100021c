-- ===== src/Base/Tx.antt =====
-- A handler's work on the database: a state monad that may fail, and the transaction around it.
pub mod Keeps
use mathlib.Core.Bool.{Bool, true, false}
use mathlib.Core.Option.{Option, none, some}
use peanut_pos.Base.Api.{Result, ok, err, ApiError, internal}

abbrev pub Tx : Type 0 → Type 0 → Type 0
Tx S A = S → Result ApiError (A × S)

infixl 5 ◌>>=◌ ◌>>◌
abbrev pub ◌>>=◌ : {S A B : Type 0} → Tx S A → (A → Tx S B) → Tx S B
◌>>=◌ m f s = elim (m s) [ ok (a, s') ↦ f a s' | err e ↦ err e ]

abbrev pub ◌>>◌ : {S A B : Type 0} → Tx S A → Tx S B → Tx S B
m >> n = m >>= λ _. n

abbrev pub pure : {S A : Type 0} → A → Tx S A
pure a s = ok (a, s)

abbrev pub raise : {S A : Type 0} → ApiError → Tx S A
raise e s = err e

abbrev pub gets : {S A : Type 0} → (S → A) → Tx S A
gets f s = ok (f s, s)

abbrev pub modify : {S : Type 0} → (S → S) → Tx S (Unit {0})
modify f s = ok (tt, f s)

-- A statement that the database may refuse: the flag says that it did.
abbrev pub attempt : {S A : Type 0} → Bool → Tx S A → Tx S A
attempt true m s = err internal
attempt false m s = m s

-- A guard: the error where the test fails.
abbrev pub require : {S : Type 0} → Bool → ApiError → Tx S (Unit {0})
require true e s = ok (tt, s)
require false e s = err e

abbrev pub some_or : {S A : Type 0} → ApiError → Option A → Tx S A
some_or e none s = err e
some_or e (some a) s = ok (a, s)

-- A transaction that is dropped on an error leaves the state as it was.
abbrev pub commit : {S A : Type 0} → S → Result ApiError (A × S) → Result ApiError A × S
commit s (ok (a, s')) = (ok a, s')
commit s (err e) = (err e, s)

abbrev pub transaction : {S A : Type 0} → Tx S A → S → Result ApiError A × S
transaction m s = commit s (m s)
