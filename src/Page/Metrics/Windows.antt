-- ===== src/Page/Metrics/Windows.antt =====
-- What the server answers to the metrics view, and what the view shows of it.
use pm2manager.Common.{
  ℕ, ◌+◌, ◌<◌, ◌≡◌, refl, String, Bool, false, Option, none, some, List, [], ◌∷◌, filter, str_eq,
  or_else,
}
use pm2manager.Metrics.{Metrics, MetricPoint, of_process}
use pm2manager.Metrics.Series.{IsSeries}
use pm2manager.Metrics.History.{HistoryRange, HistoryQuery, of_one, HistoryAnswer, range_ms, series}
use pm2manager.Page.Metrics.{preset, MetricsPage, got, chosen, arrived, run}

-- The window of an answer: the ends that the query names, or the range up to the time of the answer.
abbrev pub Window : ℕ → HistoryQuery → ℕ → ℕ → Type 0
Window now q since until =
    (since < until)
    × (or_else q.since since ≡ since)
    × (or_else q.until until ≡ until)
    × (q.until ≡ none → (until ≡ now) × (since + range_ms q.range ≡ until))

-- The answer to a query about a process is the series of its samples in such a window.
abbrev pub IsAnswered : ℕ → Metrics → HistoryQuery → HistoryAnswer → Type 0
IsAnswered now t q a =
    (points : List MetricPoint) × (a.points ≡ of_one points)
    × (a.name ≡ q.name)
    × IsSeries (filter (of_process (or_else q.name "") a.since a.until) t.rows) points
    × Window now q a.since a.until

module _ (to_local_input : ℕ → String) (get_time : String → Option ℕ) (lower_case : String → List ℕ)
    (inherited : String → Bool) where
  -- With no query on its way and a range that is not custom, process `a` is chosen and then `b`, and the
  -- answer about `b` comes before that about `a`: the view then shows the points of `a` for `b`.
  pub late_answer_shown :
      (a b : String) (r : HistoryRange) (s : MetricsPage)
      → str_eq a "" ≡ false
      → str_eq b "" ≡ false
      → s.metrics_range ≡ preset r
      → s.pending ≡ []
      → (since until : ℕ) (of_a of_b : List MetricPoint)
      → let shown =
          run to_local_input get_time lower_case inherited
            (chosen (some a)
              ∷ chosen (some b)
              ∷ arrived 1 (got since until of_b)
              ∷ arrived 0 (got since until of_a)
              ∷ [])
            s in
        (shown.metrics_process ≡ some b) × (shown.series.points ≡ of_a) × (shown.pending ≡ [])
  unfolding run
  late_answer_shown a b r s n m e p since until of_a of_b = rw (n, m, e, p) (refl, refl, refl)
