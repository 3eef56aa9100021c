-- ===== src/Gateway/Usage.antt =====
-- services/integration-gateway/src/usage.rs: the counts of API key uses, kept in memory and flushed to
-- the table api_key_usage. The HashMap is the list of its values; the u64 counters are not followed
-- past their range.
pub mod Counts
pub mod Kept
use text.Mathlib.Text.{◌==◌ as str_eq}
use peanut_pos.Base.{
  ℕ, String, ◌+◌, Bool, true, false, not, ◌&&◌, List, [], ◌∷◌, ◌++◌, ◌==◌, ltb, if◌then◌else◌,
}
use peanut_pos.Base.Table.{select}

pub record UsageRecord : Type 0 where
  pub tenant_id : ℕ
  pub key_hash : String
  pub key_suffix : String
  pub window_start : ℕ
  pub window_count : ℕ
  pub window_rejected : ℕ
  pub last_seen : ℕ
  pub summary_start : ℕ
  pub summary_count : ℕ
  pub summary_rejected : ℕ

pub record UsageWindow : Type 0 where
  pub tenant_id : ℕ
  pub key_hash : String
  pub key_suffix : String
  pub window_start : ℕ
  pub window_end : ℕ
  pub request_count : ℕ
  pub rejected_count : ℕ
  pub last_seen : ℕ

pub record UsageSummary : Type 0 where
  pub tenant_id : ℕ
  pub key_hash : String
  pub key_suffix : String
  pub window_start : ℕ
  pub window_end : ℕ
  pub request_count : ℕ
  pub rejected_count : ℕ

-- The map, the rows of api_key_usage, and the summaries handed to the producer.
pub record Tracker : Type 0 where
  pub entries : List UsageRecord
  pub rows : List UsageWindow
  pub published : List UsageSummary

-- One use of an API key.
pub record KeyUse : Type 0 where
  pub at : ℕ
  pub tenant_id : ℕ
  pub key_hash : String
  pub key_suffix : String
  pub allowed : Bool

abbrev pub one_if : Bool → ℕ
one_if true = 1
one_if false = 0

unfoldable pub fresh_record : KeyUse → UsageRecord
fresh_record u = record {
  tenant_id = u.tenant_id;
  key_hash = u.key_hash;
  key_suffix = u.key_suffix;
  window_start = u.at;
  window_count = 0;
  window_rejected = 0;
  last_seen = u.at;
  summary_start = u.at;
  summary_count = 0;
  summary_rejected = 0;
}

unfoldable pub add_use : KeyUse → UsageRecord → UsageRecord
add_use u e = record e {
  window_count = e.window_count + 1;
  summary_count = e.summary_count + 1;
  window_rejected = e.window_rejected + one_if (not u.allowed);
  summary_rejected = e.summary_rejected + one_if (not u.allowed);
  last_seen = u.at;
}

-- `entry(key_hash).or_insert_with`, and the counting of what it answers.
unfoldable pub enter : KeyUse → List UsageRecord → List UsageRecord
unfolding fresh_record add_use
enter u [] = add_use u (fresh_record u) ∷ []
enter u (e ∷ es) = if str_eq e.key_hash u.key_hash then add_use u e ∷ es else e ∷ enter u es

unfoldable pub record_api_key_use : KeyUse → Tracker → Tracker
unfolding enter
record_api_key_use u t = record t { entries = enter u t.entries }

unfoldable pub window_of : ℕ → UsageRecord → UsageWindow
window_of now e = record {
  tenant_id = e.tenant_id;
  key_hash = e.key_hash;
  key_suffix = e.key_suffix;
  window_start = e.window_start;
  window_end = now;
  request_count = e.window_count;
  rejected_count = e.window_rejected;
  last_seen = e.last_seen;
}

unfoldable pub windows : ℕ → List UsageRecord → List UsageWindow
unfolding window_of
windows now [] = []
windows now (e ∷ es) =
    if e.window_count == 0 then windows now es else window_of now e ∷ windows now es

unfoldable pub reset_windows : ℕ → List UsageRecord → List UsageRecord
reset_windows now [] = []
reset_windows now (e ∷ es) =
    (if e.window_count == 0
      then e
      else record e { window_start = now; window_count = 0; window_rejected = 0 })
    ∷ reset_windows now es

abbrev pub same_window : UsageWindow → UsageWindow → Bool
same_window r w =
    (r.tenant_id == w.tenant_id)
    && (str_eq r.key_hash w.key_hash && (r.window_start == w.window_start))

-- ON CONFLICT (tenant_id, key_hash, window_start) DO UPDATE.
unfoldable pub merged : UsageWindow → UsageWindow → UsageWindow
merged r w = record r {
  request_count = r.request_count + w.request_count;
  rejected_count = r.rejected_count + w.rejected_count;
  window_end = w.window_end;
  last_seen = if ltb r.last_seen w.last_seen then w.last_seen else r.last_seen;
}

unfoldable pub upsert : UsageWindow → List UsageWindow → List UsageWindow
unfolding merged
upsert w [] = w ∷ []
upsert w (r ∷ rs) = if same_window r w then merged r w ∷ rs else r ∷ upsert w rs

-- The loop ends at the first window that the database refuses.
unfoldable pub write_windows :
    (UsageWindow → Bool) → List UsageWindow → List UsageWindow → List UsageWindow
unfolding upsert
write_windows refused [] rows = rows
write_windows refused (w ∷ ws) rows =
    if refused w then rows else write_windows refused ws (upsert w rows)

unfoldable pub flush_window : ℕ → (UsageWindow → Bool) → Tracker → Tracker
unfolding windows reset_windows write_windows
flush_window now refused t = record t {
  entries = reset_windows now t.entries;
  rows = write_windows refused (windows now t.entries) t.rows;
}

unfoldable pub summaries : ℕ → List UsageRecord → List UsageSummary
summaries now [] = []
summaries now (e ∷ es) =
    if e.summary_count == 0
    then summaries now es
    else record {
      tenant_id = e.tenant_id;
      key_hash = e.key_hash;
      key_suffix = e.key_suffix;
      window_start = e.summary_start;
      window_end = now;
      request_count = e.summary_count;
      rejected_count = e.summary_rejected;
    }
      ∷ summaries now es

unfoldable pub reset_summaries : ℕ → List UsageRecord → List UsageRecord
reset_summaries now [] = []
reset_summaries now (e ∷ es) =
    (if e.summary_count == 0
      then e
      else record e { summary_start = now; summary_count = 0; summary_rejected = 0 })
    ∷ reset_summaries now es

-- The test says which summaries are serialized and taken by the producer, whose failures are only
-- logged; a build without kafka publishes none.
unfoldable pub flush_summary : ℕ → (UsageSummary → Bool) → Tracker → Tracker
unfolding summaries reset_summaries select
flush_summary now taken t = record t {
  entries = reset_summaries now t.entries;
  published = t.published ++ select taken (summaries now t.entries);
}

-- What happens to a tracker: a request, or a tick of one of the two background tasks.
pub data Event : Type 0 where
  used : KeyUse → Event
  flushed : ℕ → (UsageWindow → Bool) → Event
  summarised : ℕ → (UsageSummary → Bool) → Event

unfoldable pub step : Event → Tracker → Tracker
unfolding record_api_key_use flush_window flush_summary
step (used u) t = record_api_key_use u t
step (flushed now refused) t = flush_window now refused t
step (summarised now taken) t = flush_summary now taken t

unfoldable pub run : List Event → Tracker → Tracker
unfolding step
run [] t = t
run (e ∷ es) t = run es (step e t)
