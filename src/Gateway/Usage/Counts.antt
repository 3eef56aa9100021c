-- ===== src/Gateway/Usage/Counts.antt =====
-- How often a key is counted in a part of a tracker, and what each operation does to it.
use text.Mathlib.Text.{◌==◌ as str_eq}
use text.Mathlib.TextEquality.{eq_iff}
use peanut_pos.Base.{
  ℕ, String, ◌+◌, ◌≤◌, ◌≡◌, refl, ap, Bool, true, false, Bool-cases, inl, inr, List, [], ◌∷◌, ◌++◌,
  if◌then◌else◌, arith,
}
use peanut_pos.Gateway.Usage.{
  UsageRecord, UsageWindow, KeyUse, fresh_record, add_use, enter, window_of, windows, reset_windows,
  same_window, merged, upsert, write_windows, summaries, reset_summaries,
}

-- The sum of a column over the rows of a key.
unfoldable pub tally : {A : Type 0} → (A → String) → (A → ℕ) → String → List A → ℕ
tally key col h [] = 0
tally key col h (x ∷ xs) = (if str_eq (key x) h then col x else 0) + tally key col h xs

abbrev pub if_key : String → String → ℕ → ℕ
if_key k h n = if str_eq k h then n else 0

same_key : (k l h : String) → str_eq k l ≡ true → str_eq k h ≡ str_eq l h
same_key k l h e = ap (λ s. str_eq s h) ((eq_iff k l).0 e)

pub tally-append :
    {A : Type 0} (key : A → String) (col : A → ℕ) (h : String) (xs ys : List A)
    → tally key col h (xs ++ ys) ≡ tally key col h xs + tally key col h ys
unfolding tally
tally-append key col h [] ys = omega arith
tally-append key col h (x ∷ xs) ys = omega (arith, tally-append key col h xs ys)

module _ (h : String) (u : KeyUse) (col : UsageRecord → ℕ) (d : ℕ)
    (fresh : col (add_use u (fresh_record u)) ≡ d)
    (adds : (e : UsageRecord) → col (add_use u e) ≡ col e + d)
    (keeps : (e : UsageRecord) → (add_use u e).key_hash ≡ e.key_hash)
    (made : (add_use u (fresh_record u)).key_hash ≡ u.key_hash) where
  pub tally-enter :
      (es : List UsageRecord)
      → tally (λ e. e.key_hash) col h (enter u es)
        ≡ if_key u.key_hash h d + tally (λ e. e.key_hash) col h es
  unfolding tally enter
  tally-enter [] = rw (made, fresh) refl
  tally-enter (e ∷ es) = elim (Bool-cases (str_eq e.key_hash u.key_hash)) [
    | inl s ↦ rw (s, keeps e, adds e, same_key e.key_hash u.key_hash h s) (ground arith)
    | inr s ↦ rw s (omega (arith, tally-enter es))
  ]

module _ (h : String) (col : UsageWindow → ℕ)
    (adds : (r w : UsageWindow) → col (merged r w) ≡ col r + col w)
    (keeps : (r w : UsageWindow) → (merged r w).key_hash ≡ r.key_hash) where
  tally-upsert :
      (w : UsageWindow) (rs : List UsageWindow)
      → tally (λ r. r.key_hash) col h (upsert w rs)
        ≡ if_key w.key_hash h (col w) + tally (λ r. r.key_hash) col h rs
  unfolding tally upsert
  tally-upsert w [] = refl
  tally-upsert w (r ∷ rs) = elim (Bool-cases (same_window r w)) [
    | inl s ↦
        let k : str_eq r.key_hash w.key_hash ≡ true = ground arith in
        rw (s, keeps r w, adds r w, same_key r.key_hash w.key_hash h k) (ground arith)
    | inr s ↦ rw s (omega (arith, tally-upsert w rs))
  ]

  pub tally-write_windows :
      (refused : UsageWindow → Bool) (ws rs : List UsageWindow)
      → ((w : UsageWindow) → refused w ≡ false)
      → tally (λ r. r.key_hash) col h (write_windows refused ws rs)
        ≡ tally (λ r. r.key_hash) col h ws + tally (λ r. r.key_hash) col h rs
  unfolding tally write_windows
  tally-write_windows refused [] rs taken = omega arith
  tally-write_windows refused (w ∷ ws) rs taken =
      rw (taken w)
        (omega (arith, tally-write_windows refused ws (upsert w rs) taken, tally-upsert w rs))

  -- Whatever is refused, no count is written that was not handed over.
  pub tally-write_windows_le :
      (refused : UsageWindow → Bool) (ws rs : List UsageWindow)
      → tally (λ r. r.key_hash) col h (write_windows refused ws rs)
        ≤ tally (λ r. r.key_hash) col h ws + tally (λ r. r.key_hash) col h rs
  unfolding tally write_windows
  tally-write_windows_le refused [] rs = omega arith
  tally-write_windows_le refused (w ∷ ws) rs = elim (Bool-cases (refused w)) [
    | inl s ↦ rw s (omega arith)
    | inr s ↦
        rw s (omega (arith, tally-write_windows_le refused ws (upsert w rs), tally-upsert w rs))
  ]

-- A drained counter moves: what leaves the memory is what is handed over.
pub window_counts :
    (h : String) (now : ℕ) (es : List UsageRecord)
    → tally (λ w. w.key_hash) (λ w. w.request_count) h (windows now es)
        + tally (λ e. e.key_hash) (λ e. e.window_count) h (reset_windows now es)
      ≡ tally (λ e. e.key_hash) (λ e. e.window_count) h es
unfolding tally windows reset_windows window_of
window_counts h now [] = omega arith
window_counts h now (e ∷ es) = ground (arith, window_counts h now es)

pub window_rejections :
    (h : String) (now : ℕ) (es : List UsageRecord)
    → tally (λ w. w.key_hash) (λ w. w.rejected_count) h (windows now es)
        + tally (λ e. e.key_hash) (λ e. e.window_rejected) h (reset_windows now es)
      ≡ tally (λ e. e.key_hash) (λ e. e.window_rejected) h es
unfolding tally windows reset_windows window_of
window_rejections h now [] = omega arith
window_rejections h now (e ∷ es) = ground (arith, window_rejections h now es)

pub summary_counts :
    (h : String) (now : ℕ) (es : List UsageRecord)
    → tally (λ w. w.key_hash) (λ w. w.request_count) h (summaries now es)
        + tally (λ e. e.key_hash) (λ e. e.summary_count) h (reset_summaries now es)
      ≡ tally (λ e. e.key_hash) (λ e. e.summary_count) h es
unfolding tally summaries reset_summaries
summary_counts h now [] = omega arith
summary_counts h now (e ∷ es) = ground (arith, summary_counts h now es)

-- Neither drain touches the other's counters.
pub windows_untouched :
    (h : String) (now : ℕ) (es : List UsageRecord)
    → tally (λ e. e.key_hash) (λ e. e.summary_count) h (reset_windows now es)
      ≡ tally (λ e. e.key_hash) (λ e. e.summary_count) h es
unfolding tally reset_windows
windows_untouched h now [] = refl
windows_untouched h now (e ∷ es) = ground (arith, windows_untouched h now es)

module _ (h : String) (now : ℕ) (col : UsageRecord → ℕ) where
  pub summaries_untouched :
      ((e : UsageRecord)
        → col (record e { summary_start = now; summary_count = 0; summary_rejected = 0 }) ≡ col e)
      → (es : List UsageRecord)
      → tally (λ e. e.key_hash) col h (reset_summaries now es) ≡ tally (λ e. e.key_hash) col h es
  unfolding tally reset_summaries
  summaries_untouched keeps [] = refl
  summaries_untouched keeps (e ∷ es) = ground (arith, keeps e, summaries_untouched keeps es)
