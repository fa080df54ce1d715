-- ===== src/Page/Metrics/Queries.antt =====
-- The queries of the metrics view: the range in effect decides what they name.
use pm2manager.Common.{
  ℕ, zero, suc, ◌<◌, ◌≡◌, refl, String, Bool, true, false, Option, none, some, List, [], ◌∷◌, All,
  All-append, str_eq, is_blank, if◌then◌else◌,
}
use pm2manager.Metrics.History.{HistoryRange, HistoryQuery, history_query}
use pm2manager.Page.Metrics.{
  MetricsRange, preset, custom, is_custom, MetricsPage, HistoryResult, got, failed, asks,
  ask_window, ask_range, fetch_for, fetch_metrics, arrive, without,
}

-- A custom range has both its ends, in order, and another has none and is the one that a reset restores.
abbrev pub Matches : MetricsRange → Option ℕ → Option ℕ → HistoryRange → Type 0
Matches (preset r) none none last = r ≡ last
Matches custom (some from) (some to) last = from < to
Matches _ _ _ last = ⊥

-- The ends that a query names: both, in order, or none.
abbrev pub Ends : Option ℕ → Option ℕ → Type 0
Ends none none = Unit
Ends (some since) (some until) = since < until
Ends _ _ = ⊥

abbrev pub Asks : HistoryQuery → Type 0
Asks q = (is_blank q.name ≡ false) × Ends q.since q.until

pub record IsRanged (s : MetricsPage) : Type 0 where
  pub range : Matches s.metrics_range s.custom_from s.custom_to s.last_preset
  pub select : s.range_select ≡ s.metrics_range
  pub shown : s.custom_shown ≡ is_custom s.metrics_range
  pub asked : All Asks s.pending

pub IsRanged-if :
    (b : Bool) (s t : MetricsPage)
    → (b ≡ true → IsRanged s)
    → (b ≡ false → IsRanged t)
    → IsRanged (if b then s else t)
IsRanged-if true s t h k = h refl
IsRanged-if false s t h k = k refl

asks-IsRanged : (q : HistoryQuery) (s : MetricsPage) → Asks q → IsRanged s → IsRanged (asks q s)
asks-IsRanged q s a h = record {
  range = h.range;
  select = h.select;
  shown = h.shown;
  asked = All-append Asks s.pending (q ∷ []) h.asked (a, tt);
}

ask_window-IsRanged :
    (name : String) (from to : Option ℕ) (last : HistoryRange) (s : MetricsPage)
    → str_eq name "" ≡ false
    → Matches custom from to last
    → IsRanged s
    → IsRanged (ask_window name from to s)
ask_window-IsRanged name none to last s n m h = absurd m
ask_window-IsRanged name (some from) none last s n m h = absurd m
ask_window-IsRanged name (some from) (some to) last s n m h =
    asks-IsRanged (history_query (some name) none (some from) (some to)) s (n, m) h

ask_range-IsRanged :
    (name : String) (r : MetricsRange) (s : MetricsPage)
    → str_eq name "" ≡ false
    → Matches r s.custom_from s.custom_to s.last_preset
    → IsRanged s
    → IsRanged (ask_range name r s)
ask_range-IsRanged name (preset r) s n m h =
    asks-IsRanged (history_query (some name) (some r) none none) s (n, tt) h
ask_range-IsRanged name custom s n m h =
    ask_window-IsRanged name s.custom_from s.custom_to s.last_preset s n m h

fetch_for-IsRanged :
    (name : Option String) (s : MetricsPage) → IsRanged s → IsRanged (fetch_for name s)
fetch_for-IsRanged none s h = record {
  range = h.range;
  select = h.select;
  shown = h.shown;
  asked = h.asked;
}
fetch_for-IsRanged (some name) s h =
    IsRanged-if (str_eq name "") _ (ask_range name s.metrics_range s)
      (λ e. record { range = h.range; select = h.select; shown = h.shown; asked = h.asked })
      (λ n. ask_range-IsRanged name s.metrics_range s n h.range h)

pub fetch_metrics-IsRanged : (s : MetricsPage) → IsRanged s → IsRanged (fetch_metrics s)
unfolding fetch_metrics
fetch_metrics-IsRanged s h = fetch_for-IsRanged s.metrics_process s h

pub arrive-IsRanged :
    (result : HistoryResult) (s : MetricsPage) → IsRanged s → IsRanged (arrive result s)
unfolding arrive
arrive-IsRanged (got since until points) s h = record {
  range = h.range;
  select = h.select;
  shown = h.shown;
  asked = h.asked;
}
arrive-IsRanged (failed message) s h = record {
  range = h.range;
  select = h.select;
  shown = h.shown;
  asked = h.asked;
}

pub All-without {ℓ κ} :
    {A : Type ℓ} (P : A → Type κ) (i : ℕ) (xs : List A) → All P xs → All P (without i xs)
All-without P i [] h = tt
All-without P zero (x ∷ xs) (h, hs) = hs
All-without P (suc i) (x ∷ xs) (h, hs) = (h, All-without P i xs hs)
