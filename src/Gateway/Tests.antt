-- ===== src/Gateway/Tests.antt =====
-- Runs of the limiter and of the usage tracker.
use peanut_pos.Base.{ℕ, ◌≡◌, ◌≤◌, refl, Bool, true, false, some, List, [], ◌∷◌, arith}
use peanut_pos.Gateway.RateLimiter.{Limiter, Request, allowed_for, allowed_in_window}
use peanut_pos.Gateway.Usage.{KeyUse, Tracker, Event, used, flushed, summarised, run}
use peanut_pos.Gateway.Usage.Kept.{view, ledger, reported, run-view, run-reported}

abbrev used_once : Limiter
used_once = λ k. some (record { current = 1; start = 100 })

abbrev burst : List Request
burst =
    record { key = "a"; at = 101 }
    ∷ record { key = "b"; at = 102 }
    ∷ record { key = "a"; at = 103 }
    ∷ record { key = "a"; at = 104 }
    ∷ []

burst_limited : allowed_for 60 2 "a" burst used_once ≡ 1
unfolding allowed_for
burst_limited = refl

allowed_in_window_example : allowed_for 60 2 "a" burst used_once ≤ 1
allowed_in_window_example =
    allowed_in_window 60 2 "a" burst used_once (record { current = 1; start = 100 }) refl
      (
        (omega arith, omega arith),
        (
          (omega arith, omega arith),
          ((omega arith, omega arith), ((omega arith, omega arith), tt)),
        ),
      )

abbrev use_at : ℕ → Bool → KeyUse
use_at now allowed = record {
  at = now;
  tenant_id = 7;
  key_hash = "h";
  key_suffix = "s";
  allowed = allowed;
}

abbrev empty_tracker : Tracker
empty_tracker = record { entries = []; rows = []; published = [] }

-- Two uses, one of them rejected, around a flush and a summary.
abbrev day : List Event
day =
    used (use_at 10 true)
    ∷ flushed 20 (λ w. false)
    ∷ used (use_at 30 false)
    ∷ summarised 40 (λ s. true)
    ∷ []

run-view_example : view (run day empty_tracker) "h" ≡ ledger day "h" (view empty_tracker "h")
run-view_example = run-view day empty_tracker "h" (tt, ((λ w. refl), (tt, (tt, tt))))

day_counted : view (run day empty_tracker) "h" ≡ record { requests = 2; rejected = 1 }
unfolding view run
day_counted = refl

run-reported_example :
    (ledger day "h" (record { requests = 0; rejected = 0 })).requests
    ≡ reported (run day empty_tracker) "h"
unfolding reported
run-reported_example =
    run-reported day empty_tracker "h" (record { requests = 0; rejected = 0 })
      (tt, (tt, (tt, ((λ s. refl), tt)))) refl
