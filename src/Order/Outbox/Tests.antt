-- ===== src/Order/Outbox/Tests.antt =====
-- Runs of the outbox worker, and the theorems at them.
use peanut_pos.Base.{ℕ, ◌≡◌, refl, true, false, none, [], ◌∷◌, arith}
use peanut_pos.Base.Int.{pos}
use peanut_pos.Base.Lists.{All, take}
use peanut_pos.Order.Outbox.{OrderEvent, OutboxRow, Outbox, Weather, unpublished, ticks}
use peanut_pos.Order.Outbox.Drained.{was_sent, ticks_drain}
use peanut_pos.Order.Outbox.Blocked.{ticks_starve}

abbrev event : ℕ → OrderEvent
event id = record {
  order_id = id;
  tenant_id = 7;
  items = [];
  total = pos 900;
  payment_method = "cash";
  reason = none;
}

abbrev waiting : ℕ → OutboxRow
waiting id = record {
  id = id;
  tenant_id = 7;
  topic = "order.completed";
  payload = event id;
  published = false;
  retry_count = 0;
}

abbrev two_rows : Outbox
two_rows = record { rows = waiting 1 ∷ waiting 2 ∷ []; sent = [] }

abbrev calm : ℕ → Weather
calm k = record {
  fetch_fails = false;
  takes = λ id. true;
  mark_fails = λ id. false;
  count_fails = λ id. false;
}

two_sent : (ticks 1 calm two_rows).sent ≡ waiting 1 ∷ waiting 2 ∷ []
unfolding ticks
two_sent = refl

ticks_drain_example :
    All
      (λ r. (r.published ≡ true) × (was_sent r.id (ticks 1 calm two_rows) ≡ true))
      (ticks 1 calm two_rows).rows
unfolding unpublished
ticks_drain_example =
    ticks_drain 1 calm two_rows
      (λ k. record { fetched = refl; taken = λ id. refl; marked = λ id. refl })
      ((λ p. ground arith), ((λ p. ground arith), tt)) (omega arith)

abbrev refusing : ℕ → Weather
refusing k = record (calm k) { takes = λ id. false }

ticks_starve_example : (ticks 3 refusing two_rows).sent ≡ []
unfolding unpublished take
ticks_starve_example = ticks_starve 3 refusing two_rows (λ k. (refl, (refl, tt)))
