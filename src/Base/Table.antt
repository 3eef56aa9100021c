-- ===== src/Base/Table.antt =====
-- A database table is the list of its rows; a statement is a function of the list. The predicate
-- is the WHERE clause.
use mathlib.Core.Path.{◌≡◌, refl}
use mathlib.Core.Bool.{Bool, true, false}
use mathlib.Core.Option.{Option, none, some}
use mathlib.Core.List.{List, [], ◌∷◌, ◌++◌}
use native.Mathlib.Omega.{arith}
use peanut_pos.Base.Tests.{if◌then◌else◌}

module _ {ℓ} {A : Type ℓ} where
  -- SELECT ... WHERE, fetched as an optional row.
  unfoldable pub first : (A → Bool) → List A → Option A
  first p [] = none
  first p (r ∷ rs) = if p r then some r else first p rs

  -- SELECT ... WHERE, all rows.
  unfoldable pub select : (A → Bool) → List A → List A
  select p [] = []
  select p (r ∷ rs) = if p r then r ∷ select p rs else select p rs

  -- UPDATE ... SET ... WHERE.
  unfoldable pub update : (A → Bool) → (A → A) → List A → List A
  update p f [] = []
  update p f (r ∷ rs) = (if p r then f r else r) ∷ update p f rs

  -- DELETE ... WHERE.
  unfoldable pub delete : (A → Bool) → List A → List A
  delete p [] = []
  delete p (r ∷ rs) = if p r then delete p rs else r ∷ delete p rs

  -- INSERT ... ON CONFLICT DO NOTHING, where the predicate holds of the rows that conflict.
  unfoldable pub insert_absent : (A → Bool) → A → List A → List A
  unfolding first
  insert_absent p r rs = elim (first p rs) [ none ↦ rs ++ r ∷ [] | some _ ↦ rs ]

module _ {ℓ} {A : Type ℓ} where
  -- A row that is found meets the WHERE clause.
  pub first-holds : (p : A → Bool) (rs : List A) (r : A) → first p rs ≡ some r → p r ≡ true
  unfolding first
  first-holds p [] r h = ground arith
  first-holds p (x ∷ rs) r h = ground (arith, first-holds p rs r)

  -- An update that no row of another query's WHERE clause enters or leaves.
  pub first-update :
      (p q : A → Bool) (f : A → A) (rs : List A)
      → ((r : A) → p (f r) ≡ p r)
      → ((r : A) → p r ≡ true → q r ≡ true)
      → first p (update q f rs) ≡ elim (first p rs) [ none ↦ none | some r ↦ some (f r) ]
  unfolding first update
  first-update p q f [] h k = refl
  first-update p q f (r ∷ rs) h k = ground (arith, h r, k r, first-update p q f rs h k)

  pub first-update_ne :
      (p q : A → Bool) (f : A → A) (rs : List A)
      → ((r : A) → p (f r) ≡ p r)
      → ((r : A) → p r ≡ true → q r ≡ false)
      → first p (update q f rs) ≡ first p rs
  unfolding first update
  first-update_ne p q f [] h k = refl
  first-update_ne p q f (r ∷ rs) h k = ground (arith, h r, k r, first-update_ne p q f rs h k)

  pub first-append :
      (p : A → Bool) (rs ss : List A)
      → first p (rs ++ ss) ≡ elim (first p rs) [ none ↦ first p ss | some r ↦ some r ]
  unfolding first
  first-append p [] ss = refl
  first-append p (r ∷ rs) ss = ground (arith, first-append p rs ss)

  -- The row that is found is among those updated.
  pub first-update_hit :
      (p q : A → Bool) (f : A → A) (rs : List A) (x : A)
      → ((r : A) → p (f r) ≡ p r)
      → first p rs ≡ some x
      → q x ≡ true
      → first p (update q f rs) ≡ some (f x)
  unfolding first update
  first-update_hit p q f [] x h found hit = ground arith
  first-update_hit p q f (r ∷ rs) x h found hit = ground (arith, h r, first-update_hit p q f rs x h)
