-- ===== src/Order/Outbox/Drained.antt =====
-- The outbox worker when the broker and the database answer.
use peanut_pos.Base.{
  ℕ, zero, suc, ◌*◌, ◌-◌, ◌≤◌, ◌≡◌, refl, sym, ap, subst, ◌∙◌, Bool, true, false, not, ◌||◌, ◌&&◌,
  Bool-cases, inl, inr, List, [], ◌∷◌, ◌++◌, ◌==◌, ==_refl, arith,
}
use peanut_pos.Base.Lists.{take, length, any, All}
use peanut_pos.Base.Table.{select, update}
use peanut_pos.Order.Outbox.{
  OutboxRow, Outbox, Weather, batch_size, unpublished, mark, retry, publish, publish_all, tick,
  ticks,
}

pub record Fine (env : Weather) : Type 0 where
  pub fetched : env.fetch_fails ≡ false
  pub taken : (id : ℕ) → env.takes id ≡ true
  pub marked : (id : ℕ) → env.mark_fails id ≡ false

abbrev pub was_sent : ℕ → Outbox → Bool
was_sent id o = any (λ m. m.id == id) o.sent

-- A row that is marked as published has been sent.
abbrev pub Sent : Outbox → OutboxRow → Type 0
Sent o r = r.published ≡ true → was_sent r.id o ≡ true

-- Marking leaves the unpublished rows of other ids.
unpublished-mark :
    (id : ℕ) (rows : List OutboxRow)
    → unpublished (update (λ r. r.id == id) mark rows)
      ≡ select (λ r. not (r.id == id)) (unpublished rows)
unfolding unpublished update select
unpublished-mark id [] = refl
unpublished-mark id (r ∷ rows) = ground (arith, unpublished-mark id rows)

without : List OutboxRow → List OutboxRow → List OutboxRow
without [] rows = rows
without (b ∷ bs) rows = without bs (select (λ r. not (r.id == b.id)) rows)

unpublished-publish_all :
    (env : Weather) (batch : List OutboxRow) (o : Outbox)
    → Fine env
    → unpublished (publish_all env batch o).rows ≡ without batch (unpublished o.rows)
unfolding publish_all publish without
unpublished-publish_all env [] o fine = refl
unpublished-publish_all env (b ∷ bs) o fine =
    unpublished-publish_all env bs (publish env b o) fine
    ∙ rw (fine.taken b.id, fine.marked b.id) (ap (without bs) (unpublished-mark b.id o.rows))

length-select :
    (p : OutboxRow → Bool) (rows : List OutboxRow) → length (select p rows) ≤ length rows
unfolding select
length-select p [] = omega arith
length-select p (r ∷ rows) = ground (arith, length-select p rows)

length-without : (bs rows : List OutboxRow) → length (without bs rows) ≤ length rows
unfolding without
length-without [] rows = omega arith
length-without (b ∷ bs) rows = omega (
  arith,
  length-without bs (select (λ r. not (r.id == b.id)) rows),
  length-select (λ r. not (r.id == b.id)) rows,
)

select-select :
    (p q : OutboxRow → Bool) (rows : List OutboxRow)
    → select q (select p rows) ≡ select (λ r. p r && q r) rows
unfolding select
select-select p q [] = refl
select-select p q (r ∷ rows) = ground (arith, select-select p q rows)

select-all : (rows : List OutboxRow) → select (λ r. true) rows ≡ rows
unfolding select
select-all [] = refl
select-all (r ∷ rows) = ap (λ rs. r ∷ rs) (select-all rows)

head_removed :
    (p : OutboxRow → Bool) (r : OutboxRow) (rows : List OutboxRow)
    → select (λ x. not (x.id == r.id)) (select p (r ∷ rows))
      ≡ select (λ x. p x && not (x.id == r.id)) rows
unfolding select
head_removed p r rows = ground (arith, ==_refl r.id, select-select p (λ x. not (x.id == r.id)) rows)

-- A batch is removed whole, with whatever else has the ids of its rows.
batch_removed :
    (n : ℕ) (p : OutboxRow → Bool) (rows : List OutboxRow)
    → length (without (take n rows) (select p rows)) ≤ length rows - n
unfolding take without
batch_removed zero p rows = omega (arith, length-select p rows)
batch_removed (suc n) p [] = omega (arith, length-select p [])
batch_removed (suc n) p (r ∷ rows) =
    subst (λ rs. length (without (take n rows) rs) ≤ length (r ∷ rows) - suc n)
      (sym (head_removed p r rows))
      (omega (arith, batch_removed n (λ x. p x && not (x.id == r.id)) rows))

tick-fewer :
    (env : Weather) (o : Outbox)
    → Fine env
    → length (unpublished (tick env o).rows) ≤ length (unpublished o.rows) - batch_size
unfolding tick
tick-fewer env o fine =
    let gone = unpublished-publish_all env (take batch_size (unpublished o.rows)) o fine in
    rw (fine.fetched, gone)
      (subst
        (λ rs.
          length (without (take batch_size (unpublished o.rows)) rs)
          ≤ length (unpublished o.rows) - batch_size)
        (select-all (unpublished o.rows))
        (batch_removed batch_size (λ r. true) (unpublished o.rows)))

any-append :
    (p : OutboxRow → Bool) (xs ys : List OutboxRow) → any p (xs ++ ys) ≡ (any p xs || any p ys)
any-append p [] ys = refl
any-append p (x ∷ xs) ys = ground (arith, any-append p xs ys)

marked-Sent :
    (o : Outbox) (b : OutboxRow) (rows : List OutboxRow)
    → All (Sent o) rows
    → All (Sent (record o { sent = o.sent ++ b ∷ [] })) (update (λ r. r.id == b.id) mark rows)
unfolding update
marked-Sent o b [] h = tt
marked-Sent o b (r ∷ rows) (h, hs) = (
  elim (Bool-cases (r.id == b.id)) [
    | inl e ↦ rw e (λ p. rw (any-append (λ m. m.id == r.id) o.sent (b ∷ [])) (ground arith))
    | inr e ↦ rw e (λ p. rw (any-append (λ m. m.id == r.id) o.sent (b ∷ []), h p) refl)
  ],
  marked-Sent o b rows hs,
)

others-Sent :
    (o : Outbox) (b : OutboxRow) (rows : List OutboxRow)
    → All (Sent o) rows
    → All (Sent (record o { sent = o.sent ++ b ∷ [] })) rows
others-Sent o b [] h = tt
others-Sent o b (r ∷ rows) (h, hs) =
    ((λ p. rw (any-append (λ m. m.id == r.id) o.sent (b ∷ []), h p) refl), others-Sent o b rows hs)

retried-Sent :
    (o : Outbox) (id : ℕ) (rows : List OutboxRow)
    → All (Sent o) rows
    → All (Sent o) (update (λ r. r.id == id) retry rows)
unfolding update
retried-Sent o id [] h = tt
retried-Sent o id (r ∷ rows) (h, hs) = (
  elim (Bool-cases (r.id == id)) [ inl e ↦ rw e (λ p. h p) | inr e ↦ rw e (λ p. h p) ],
  retried-Sent o id rows hs,
)

publish-Sent :
    (env : Weather) (b : OutboxRow) (o : Outbox)
    → All (Sent o) o.rows
    → All (Sent (publish env b o)) (publish env b o).rows
unfolding publish
publish-Sent env b o h = elim (Bool-cases (env.takes b.id)) [
  | inl t ↦ elim (Bool-cases (env.mark_fails b.id)) [
    | inl f ↦ rw (t, f) (others-Sent o b o.rows h)
    | inr f ↦ rw (t, f) (marked-Sent o b o.rows h)
  ]
  | inr t ↦ elim (Bool-cases (env.count_fails b.id)) [
    | inl f ↦ rw (t, f) h
    | inr f ↦ rw (t, f) (retried-Sent o b.id o.rows h)
  ]
]

publish_all-Sent :
    (env : Weather) (batch : List OutboxRow) (o : Outbox)
    → All (Sent o) o.rows
    → All (Sent (publish_all env batch o)) (publish_all env batch o).rows
unfolding publish_all
publish_all-Sent env [] o h = h
publish_all-Sent env (b ∷ bs) o h =
    publish_all-Sent env bs (publish env b o) (publish-Sent env b o h)

tick-Sent :
    (env : Weather) (o : Outbox) → All (Sent o) o.rows → All (Sent (tick env o)) (tick env o).rows
unfolding tick
tick-Sent env o h = elim (Bool-cases env.fetch_fails) [
  | inl f ↦ rw f h
  | inr f ↦ rw f (publish_all-Sent env (take batch_size (unpublished o.rows)) o h)
]

-- Whatever the database and the broker refuse, a row is marked as published only when the broker took
-- it: the invariant holds after any number of ticks.
pub ticks-Sent :
    (n : ℕ) (env : ℕ → Weather) (o : Outbox)
    → All (Sent o) o.rows
    → All (Sent (ticks n env o)) (ticks n env o).rows
unfolding ticks
ticks-Sent zero env o h = h
ticks-Sent (suc n) env o h =
    ticks-Sent n (λ k. env (suc k)) (tick (env 0) o) (tick-Sent (env 0) o h)

ticks-empty :
    (n : ℕ) (env : ℕ → Weather) (o : Outbox)
    → ((k : ℕ) → Fine (env k))
    → length (unpublished o.rows) ≤ batch_size * n
    → length (unpublished (ticks n env o).rows) ≤ 0
unfolding ticks
ticks-empty zero env o fine few = omega arith
ticks-empty (suc n) env o fine few =
    ticks-empty n (λ k. env (suc k)) (tick (env 0) o) (λ k. fine (suc k))
      (omega (arith, tick-fewer (env 0) o (fine 0)))

every_row_out :
    (o : Outbox) (rows : List OutboxRow)
    → length (unpublished rows) ≤ 0
    → All (Sent o) rows
    → All (λ r. (r.published ≡ true) × (was_sent r.id o ≡ true)) rows
unfolding unpublished select
every_row_out o [] e h = tt
every_row_out o (r ∷ rows) e (h, hs) = elim (Bool-cases r.published) [
  | inl p ↦ ((p, h p), every_row_out o rows (ground arith) hs)
  | inr p ↦ absurd (ground arith)
]

-- While the broker and the database answer, every row gets out: after n ticks an outbox that had at
-- most 50 n unpublished rows, and whose published rows had been sent, holds only rows that are marked
-- as published and that the broker took.
pub ticks_drain :
    (n : ℕ) (env : ℕ → Weather) (o : Outbox)
    → ((k : ℕ) → Fine (env k))
    → All (Sent o) o.rows
    → length (unpublished o.rows) ≤ batch_size * n
    → All (λ r. (r.published ≡ true) × (was_sent r.id (ticks n env o) ≡ true)) (ticks n env o).rows
ticks_drain n env o fine h few =
    every_row_out (ticks n env o) (ticks n env o).rows (ticks-empty n env o fine few)
      (ticks-Sent n env o h)
