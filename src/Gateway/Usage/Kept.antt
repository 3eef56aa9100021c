-- ===== src/Gateway/Usage/Kept.antt =====
-- The tracker beside a ledger that counts every use at once.
use text.Mathlib.Text.{◌==◌ as str_eq}
use peanut_pos.Base.{
  ℕ, String, ◌+◌, ◌≡◌, refl, ap, ◌∙◌, Bool, true, false, not, List, [], ◌∷◌, if◌then◌else◌, arith,
}
use peanut_pos.Base.Lists.{All}
use peanut_pos.Base.Table.{select}
use peanut_pos.Gateway.Usage.{
  UsageRecord, UsageWindow, UsageSummary, Tracker, KeyUse, Event, used, flushed, summarised, one_if,
  add_use, fresh_record, merged, summaries, record_api_key_use, windows, reset_windows,
  write_windows, flush_window, flush_summary, step, run,
}
use peanut_pos.Gateway.Usage.Counts.{
  tally, tally-append, tally-enter, tally-write_windows, window_counts, window_rejections,
  summary_counts, windows_untouched, summaries_untouched,
}

pub record KeyUsage : Type 0 where
  pub requests : ℕ
  pub rejected : ℕ

-- The specification: the uses of a key, counted as they come. The flushes do nothing to it.
unfoldable pub count_event : Event → String → KeyUsage → KeyUsage
count_event (used u) h k =
    if str_eq u.key_hash h
    then record { requests = k.requests + 1; rejected = k.rejected + one_if (not u.allowed) }
    else k
count_event (flushed now refused) h k = k
count_event (summarised now taken) h k = k

unfoldable pub ledger : List Event → String → KeyUsage → KeyUsage
unfolding count_event
ledger [] h k = k
ledger (e ∷ es) h k = ledger es h (count_event e h k)

abbrev in_rows : (UsageWindow → ℕ) → Tracker → String → ℕ
in_rows col t h = tally (λ r. r.key_hash) col h t.rows

abbrev in_memory : (UsageRecord → ℕ) → Tracker → String → ℕ
in_memory col t h = tally (λ e. e.key_hash) col h t.entries

-- What the table and the memory hold of a key together.
unfoldable pub view : Tracker → String → KeyUsage
unfolding tally
view t h = record {
  requests = in_rows (λ r. r.request_count) t h + in_memory (λ e. e.window_count) t h;
  rejected = in_rows (λ r. r.rejected_count) t h + in_memory (λ e. e.window_rejected) t h;
}

abbrev pub Accepted : Event → Type 0
Accepted (flushed now refused) = (w : UsageWindow) → refused w ≡ false
Accepted _ = Unit

requests_used :
    (u : KeyUse) (t : Tracker) (h : String)
    → in_memory (λ e. e.window_count) (record_api_key_use u t) h
      ≡ (if str_eq u.key_hash h then 1 else 0) + in_memory (λ e. e.window_count) t h
unfolding record_api_key_use add_use fresh_record
requests_used u t h =
    tally-enter h u (λ e. e.window_count) 1 refl (λ e. refl) (λ e. refl) refl t.entries

rejected_used :
    (u : KeyUse) (t : Tracker) (h : String)
    → in_memory (λ e. e.window_rejected) (record_api_key_use u t) h
      ≡ (if str_eq u.key_hash h then one_if (not u.allowed) else 0)
        + in_memory (λ e. e.window_rejected) t h
unfolding record_api_key_use add_use fresh_record
rejected_used u t h =
    tally-enter h u (λ e. e.window_rejected) (one_if (not u.allowed)) (omega arith) (λ e. refl)
      (λ e. refl) refl t.entries

requests_written :
    (refused : UsageWindow → Bool) (ws rs : List UsageWindow) (h : String)
    → ((w : UsageWindow) → refused w ≡ false)
    → tally (λ r. r.key_hash) (λ r. r.request_count) h (write_windows refused ws rs)
      ≡ tally (λ r. r.key_hash) (λ r. r.request_count) h ws
        + tally (λ r. r.key_hash) (λ r. r.request_count) h rs
unfolding merged
requests_written refused ws rs h taken =
    tally-write_windows h (λ r. r.request_count) (λ r w. refl) (λ r w. refl) refused ws rs taken

rejected_written :
    (refused : UsageWindow → Bool) (ws rs : List UsageWindow) (h : String)
    → ((w : UsageWindow) → refused w ≡ false)
    → tally (λ r. r.key_hash) (λ r. r.rejected_count) h (write_windows refused ws rs)
      ≡ tally (λ r. r.key_hash) (λ r. r.rejected_count) h ws
        + tally (λ r. r.key_hash) (λ r. r.rejected_count) h rs
unfolding merged
rejected_written refused ws rs h taken =
    tally-write_windows h (λ r. r.rejected_count) (λ r w. refl) (λ r w. refl) refused ws rs taken

step-view :
    (e : Event) (t : Tracker) (h : String)
    → Accepted e
    → view (step e t) h ≡ count_event e h (view t h)
unfolding step view count_event record_api_key_use flush_window flush_summary
step-view (used u) t h a = ground (arith, requests_used u t h, rejected_used u t h)
step-view (flushed now refused) t h a = ground (
  arith,
  requests_written refused (windows now t.entries) t.rows h a,
  rejected_written refused (windows now t.entries) t.rows h a,
  window_counts h now t.entries,
  window_rejections h now t.entries,
)
step-view (summarised now taken) t h a = ground (
  arith,
  summaries_untouched h now (λ e. e.window_count) (λ e. refl) t.entries,
  summaries_untouched h now (λ e. e.window_rejected) (λ e. refl) t.entries,
)

-- Over any run of uses and flushes in which the database takes every window, what the table and the
-- memory hold of a key together is what a ledger holds that counts each use, and each rejected one,
-- as it comes.
pub run-view :
    (es : List Event) (t : Tracker) (h : String)
    → All Accepted es
    → view (run es t) h ≡ ledger es h (view t h)
unfolding run ledger
run-view [] t h a = refl
run-view (e ∷ es) t h (a, as') = run-view es (step e t) h as' ∙ ap (ledger es h) (step-view e t h a)

nothing_written :
    (refused : UsageWindow → Bool) (ws rs : List UsageWindow)
    → ((w : UsageWindow) → refused w ≡ true)
    → write_windows refused ws rs ≡ rs
unfolding write_windows
nothing_written refused [] rs never = refl
nothing_written refused (w ∷ ws) rs never = rw (never w) refl

forgotten :
    (now : ℕ) (h : String) (es : List UsageRecord)
    → tally (λ e. e.key_hash) (λ e. e.window_count) h (reset_windows now es) ≡ 0
unfolding tally reset_windows
forgotten now h [] = refl
forgotten now h (e ∷ es) = ground (arith, forgotten now h es)

-- A flush that the database refuses forgets the requests in memory: the table is as it was, and of no
-- key is any request left to be flushed later.
refused_flush_forgets :
    (now : ℕ) (refused : UsageWindow → Bool) (t : Tracker) (h : String)
    → ((w : UsageWindow) → refused w ≡ true)
    → (view (flush_window now refused t) h).requests
      ≡ tally (λ r. r.key_hash) (λ r. r.request_count) h t.rows
unfolding view flush_window
refused_flush_forgets now refused t h never =
    ground (
      arith,
      nothing_written refused (windows now t.entries) t.rows never,
      forgotten now h t.entries,
    )

-- The uses of a key that the summaries report, and those that the next one will.
unfoldable pub reported : Tracker → String → ℕ
unfolding tally
reported t h =
    tally (λ s. s.key_hash) (λ s. s.request_count) h t.published
    + in_memory (λ e. e.summary_count) t h

-- Every summary of the tick is published.
abbrev pub Published : Event → Type 0
Published (summarised now taken) = (s : UsageSummary) → taken s ≡ true
Published _ = Unit

all_taken :
    (taken : UsageSummary → Bool) (ss : List UsageSummary)
    → ((s : UsageSummary) → taken s ≡ true)
    → select taken ss ≡ ss
unfolding select
all_taken taken [] every = refl
all_taken taken (s ∷ ss) every = ground (arith, every s, all_taken taken ss every)

step-reported :
    (e : Event) (t : Tracker) (h : String) (k : KeyUsage)
    → Published e
    → k.requests ≡ reported t h
    → (count_event e h k).requests ≡ reported (step e t) h
unfolding step reported count_event record_api_key_use flush_window flush_summary add_use
    fresh_record
step-reported (used u) t h k p same =
    ground
      (arith, tally-enter h u (λ e. e.summary_count) 1 refl (λ e. refl) (λ e. refl) refl t.entries)
step-reported (flushed now refused) t h k p same = ground (arith, windows_untouched h now t.entries)
step-reported (summarised now taken) t h k p same = ground (
  arith,
  all_taken taken (summaries now t.entries) p,
  tally-append (λ s. s.key_hash) (λ s. s.request_count) h t.published (summaries now t.entries),
  summary_counts h now t.entries,
)

-- Where every summary is serialized and taken by the producer, and whatever the database refuses, the
-- summaries published and the one to come report each use of a key once.
pub run-reported :
    (es : List Event) (t : Tracker) (h : String) (k : KeyUsage)
    → All Published es
    → k.requests ≡ reported t h
    → (ledger es h k).requests ≡ reported (run es t) h
unfolding run ledger
run-reported [] t h k p same = same
run-reported (e ∷ es) t h k (p, ps) same =
    run-reported es (step e t) h (count_event e h k) ps (step-reported e t h k p same)
