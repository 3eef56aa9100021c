-- ===== src/Order/Outbox/Blocked.antt =====
-- The outbox worker when the broker refuses the oldest rows.
use peanut_pos.Base.{
  ℕ, zero, suc, ◌≡◌, refl, sym, ap, subst, ◌∙◌, false, Bool-cases, inl, inr, List, [], ◌∷◌, ◌==◌,
  map, arith,
}
use peanut_pos.Base.Lists.{take, All}
use peanut_pos.Base.Table.{select, update}
use peanut_pos.Order.Outbox.{
  OutboxRow, Outbox, Weather, batch_size, unpublished, retry, publish, publish_all, tick, ticks,
}

abbrev pub ids : List OutboxRow → List ℕ
ids rows = map (λ r. r.id) rows

-- The broker refuses each row of the batch, at every tick.
abbrev pub Blocked : (ℕ → Weather) → List OutboxRow → Type 0
Blocked env rows =
    (k : ℕ) → All (λ id. (env k).takes id ≡ false) (take batch_size (ids (unpublished rows)))

ids-retry :
    (id : ℕ) (rows : List OutboxRow)
    → ids (unpublished (update (λ r. r.id == id) retry rows)) ≡ ids (unpublished rows)
unfolding unpublished update select
ids-retry id [] = refl
ids-retry id (r ∷ rows) = ground (arith, ids-retry id rows)

ids-take : (n : ℕ) (rows : List OutboxRow) → take n (ids rows) ≡ ids (take n rows)
unfolding take
ids-take zero rows = refl
ids-take (suc n) [] = refl
ids-take (suc n) (r ∷ rows) = ap (λ xs. r.id ∷ xs) (ids-take n rows)

-- A tick that sends nothing and leaves the order of the unpublished rows.
abbrev Stuck : Outbox → Outbox → Type 0
Stuck o o' = (o'.sent ≡ o.sent) × (ids (unpublished o'.rows) ≡ ids (unpublished o.rows))

publish-Stuck :
    (env : Weather) (b : OutboxRow) (o : Outbox)
    → env.takes b.id ≡ false
    → Stuck o (publish env b o)
unfolding publish
publish-Stuck env b o t = elim (Bool-cases (env.count_fails b.id)) [
  | inl f ↦ rw (t, f) (refl, refl)
  | inr f ↦ rw (t, f) (refl, ids-retry b.id o.rows)
]

publish_all-Stuck :
    (env : Weather) (bs : List OutboxRow) (o : Outbox)
    → All (λ id. env.takes id ≡ false) (ids bs)
    → Stuck o (publish_all env bs o)
unfolding publish_all
publish_all-Stuck env [] o h = (refl, refl)
publish_all-Stuck env (b ∷ bs) o (h, hs) =
    let (p, q) = publish_all-Stuck env bs (publish env b o) hs in
    let (p', q') = publish-Stuck env b o h in (p ∙ p', q ∙ q')

tick-Stuck :
    (env : Weather) (o : Outbox)
    → All (λ id. env.takes id ≡ false) (take batch_size (ids (unpublished o.rows)))
    → Stuck o (tick env o)
unfolding tick
tick-Stuck env o h = elim (Bool-cases env.fetch_fails) [
  | inl f ↦ rw f (refl, refl)
  | inr f ↦ rw f (
      publish_all-Stuck env (take batch_size (unpublished o.rows)) o
        (subst (All (λ id. env.takes id ≡ false)) (ids-take batch_size (unpublished o.rows)) h))
]

-- Where the broker refuses the 50 oldest unpublished rows at every tick, nothing is sent by any number
-- of ticks, whatever else the outbox holds and whatever the database refuses.
pub ticks_starve :
    (n : ℕ) (env : ℕ → Weather) (o : Outbox) → Blocked env o.rows → (ticks n env o).sent ≡ o.sent
unfolding ticks
ticks_starve zero env o h = refl
ticks_starve (suc n) env o h =
    let (p, q) = tick-Stuck (env 0) o (h 0) in
    ticks_starve n (λ k. env (suc k)) (tick (env 0) o)
      (λ k.
        subst (λ xs. All (λ id. (env (suc k)).takes id ≡ false) (take batch_size xs)) (sym q)
          (h (suc k)))
    ∙ p
