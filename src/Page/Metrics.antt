-- ===== src/Page/Metrics.antt =====
-- The metrics view of the page (public/static/js/app.js): the process and the range chosen, the
-- queries on their way, and the points shown. What a date input shows and how it is read, the code units
-- of a name in lower case, and the names that every object inherits are parameters. Times are natural
-- numbers. A query is written as the schema of the endpoint reads it, its name unchanged.
pub mod Queries
pub mod Ranges
pub mod Windows
pub mod Names
use pm2manager.Common.{
  ℕ, zero, suc, ◌+◌, ◌-◌, String, Bool, true, false, not, ◌&&◌, ◌||◌, Option, none, some, List, [],
  ◌∷◌, ◌++◌, any, ltb, leb, ◌==◌, is_blank, str_eq, or_else, if◌then◌else◌,
}
use pm2manager.Common.Sort.{sort}
use pm2manager.Common.Distinct.{unseen, is_listed}
use pm2manager.Users.Order.{codes_le}
use pm2manager.Metrics.{MetricPoint}
use pm2manager.Metrics.History.{
  HistoryRange, m15, m30, h1, h6, h12, h24, d7, d30, range_ms, HistoryQuery, history_query,
}

-- `metricsRange`
pub data MetricsRange : Type 0 where
  preset : HistoryRange → MetricsRange
  custom : MetricsRange

abbrev pub is_custom : MetricsRange → Bool
is_custom (preset r) = false
is_custom custom = true

pub record MetricsSeries : Type 0 where
  pub points : List MetricPoint
  pub span : ℕ

-- What the endpoint answers, or the message that the request fails with.
pub data HistoryResult : Type 0 where
  got : ℕ → ℕ → List MetricPoint → HistoryResult
  failed : String → HistoryResult

-- The variables of the view, the values of its select and inputs, whether the inputs are shown, the error
-- box, the toast, and the queries that have not been answered.
pub record MetricsPage : Type 0 where
  pub options : List String
  pub metrics_process : Option String
  pub metrics_range : MetricsRange
  pub last_preset : HistoryRange
  pub custom_from : Option ℕ
  pub custom_to : Option ℕ
  pub series : MetricsSeries
  pub range_select : MetricsRange
  pub custom_shown : Bool
  pub from_input : String
  pub to_input : String
  pub error_shown : Option String
  pub toasts : List String
  pub pending : List HistoryQuery

abbrev pub asks : HistoryQuery → MetricsPage → MetricsPage
asks q s = record s { error_shown = none; pending = s.pending ++ (q ∷ []) }

abbrev pub ask_window : String → Option ℕ → Option ℕ → MetricsPage → MetricsPage
ask_window name (some from) (some to) s =
    asks (history_query (some name) none (some from) (some to)) s
ask_window name _ _ s = s

abbrev pub ask_range : String → MetricsRange → MetricsPage → MetricsPage
ask_range name (preset r) s = asks (history_query (some name) (some r) none none) s
ask_range name custom s = ask_window name s.custom_from s.custom_to s

-- `fetchMetrics` up to the request: without a process nothing is asked for.
abbrev pub fetch_for : Option String → MetricsPage → MetricsPage
fetch_for none s = record s { series = record { points = []; span = range_ms h1 } }
fetch_for (some name) s =
    if str_eq name ""
    then record s { series = record { points = []; span = range_ms h1 } }
    else ask_range name s.metrics_range s

unfoldable pub fetch_metrics : MetricsPage → MetricsPage
fetch_metrics s = fetch_for s.metrics_process s

-- `RANGE_MS[metricsRange] || RANGE_MS['6h']`
abbrev pub span_of : MetricsRange → ℕ
span_of (preset r) = range_ms r
span_of custom = range_ms h6

-- The callbacks of the request.
unfoldable pub arrive : HistoryResult → MetricsPage → MetricsPage
arrive (got since until points) s = record s {
  series = record {
    points = points;
    span = if until - since == 0 then span_of s.metrics_range else until - since;
  };
}
arrive (failed message) s = record s {
  series = record { points = []; span = range_ms h6 };
  error_shown = some message;
}

-- The query at a place of those on their way is answered.
abbrev pub without {ℓ} : {A : Type ℓ} → ℕ → List A → List A
without i [] = []
without zero (x ∷ xs) = xs
without (suc i) (x ∷ xs) = x ∷ without i xs

module _ (to_local_input : ℕ → String) (get_time : String → Option ℕ) where
  abbrev pub zoomed : ℕ → ℕ → MetricsPage → MetricsPage
  zoomed from to s = record s {
    metrics_range = custom;
    custom_from = some from;
    custom_to = some to;
    range_select = custom;
    custom_shown = true;
    from_input = to_local_input from;
    to_input = to_local_input to;
  }

  -- `onMetricsZoom`
  unfoldable pub on_metrics_zoom : ℕ → ℕ → MetricsPage → MetricsPage
  unfolding fetch_metrics
  on_metrics_zoom from to s = if ltb 1000 (to - from) then fetch_metrics (zoomed from to s) else s

  abbrev pub restored : MetricsPage → MetricsPage
  restored s = record s {
    metrics_range = preset s.last_preset;
    custom_from = none;
    custom_to = none;
    range_select = preset s.last_preset;
    custom_shown = false;
  }

  -- `onMetricsReset`
  unfoldable pub on_metrics_reset : MetricsPage → MetricsPage
  unfolding fetch_metrics
  on_metrics_reset s = fetch_metrics (restored s)

  abbrev pub with_custom : ℕ → Option ℕ → Option ℕ → MetricsPage → MetricsPage
  with_custom now none to s = record s {
    metrics_range = custom;
    custom_from = some (now - range_ms h1);
    custom_to = some now;
    from_input = to_local_input (now - range_ms h1);
    to_input = to_local_input now;
  }
  with_custom now (some from) to s = record s {
    metrics_range = custom;
    from_input = to_local_input from;
    to_input = to_local_input (or_else to 0);
  }

  abbrev pub to_custom : ℕ → MetricsPage → MetricsPage
  to_custom now s =
      record (with_custom now s.custom_from s.custom_to (record s { range_select = custom })) {
        custom_shown = true;
      }

  abbrev pub to_preset : HistoryRange → MetricsPage → MetricsPage
  to_preset r s = record s {
    range_select = preset r;
    metrics_range = preset r;
    last_preset = r;
    custom_from = none;
    custom_to = none;
    custom_shown = false;
  }

  -- The user picks a range in the select.
  unfoldable pub pick : ℕ → MetricsRange → MetricsPage → MetricsPage
  unfolding fetch_metrics
  pick now custom s = fetch_metrics (to_custom now s)
  pick now (preset r) s = fetch_metrics (to_preset r s)

  abbrev pub with_times : ℕ → ℕ → MetricsPage → MetricsPage
  with_times from to s = record s {
    metrics_range = custom;
    custom_from = some from;
    custom_to = some to;
  }

  abbrev pub apply_times : Option ℕ → Option ℕ → MetricsPage → MetricsPage
  apply_times (some from) (some to) s =
      if leb to from
      then record s { toasts = "End time must be after start time" ∷ s.toasts }
      else fetch_metrics (with_times from to s)
  apply_times _ _ s = record s { toasts = "End time must be after start time" ∷ s.toasts }

  -- A click on `metrics-apply`.
  unfoldable pub apply_custom : MetricsPage → MetricsPage
  unfolding fetch_metrics
  apply_custom s =
      if str_eq s.from_input "" || str_eq s.to_input ""
      then record s { toasts = "Pick both a start and end time" ∷ s.toasts }
      else apply_times (get_time s.from_input) (get_time s.to_input) s

-- `loadMetrics`: the names to choose from, each once, in the order of their lower case. The table of
-- those seen is an object, so the names that it inherits count as seen.
module _ (lower_case : String → List ℕ) (inherited : String → Bool) where
  abbrev pub lower_le : String → String → Bool
  lower_le a b = codes_le (lower_case a) (lower_case b)

  unfoldable pub offered : List String → List String → List String
  unfolding sort unseen
  offered live stored = sort lower_le (unseen (λ n. str_eq n "" || inherited n) (live ++ stored))

abbrev pub kept_or : Option String → String → List String → String
kept_or none first names = first
kept_or (some n) first names = if is_listed n names then n else first

abbrev pub with_names : List String → MetricsPage → MetricsPage
with_names [] s = record s { options = []; metrics_process = none }
with_names (n ∷ ns) s = record s {
  options = n ∷ ns;
  metrics_process = some (kept_or s.metrics_process n (n ∷ ns));
}

abbrev pub with_controls : MetricsPage → MetricsPage
with_controls s = record s {
  range_select = s.metrics_range;
  custom_shown = is_custom s.metrics_range;
}

module _ (lower_case : String → List ℕ) (inherited : String → Bool) where
  unfoldable pub load_metrics : List String → List String → MetricsPage → MetricsPage
  unfolding offered fetch_metrics
  load_metrics live stored s =
      fetch_metrics (with_controls (with_names (offered lower_case inherited live stored) s))

-- A tick is one that finds no refresh under way; a button or an input that is hidden is not used.
pub data Event : Type 0 where
  -- the names of the processes that run, and of those with samples
  loaded : List String → List String → Event
  chosen : Option String → Event
  picked : ℕ → MetricsRange → Event
  typed : String → String → Event
  applied : Event
  zoomed_to : ℕ → ℕ → Event
  reset : Event
  ticked : Event
  arrived : ℕ → HistoryResult → Event

module _ (to_local_input : ℕ → String) (get_time : String → Option ℕ) (lower_case : String → List ℕ)
    (inherited : String → Bool) where
  unfoldable pub step : Event → MetricsPage → MetricsPage
  unfolding load_metrics fetch_metrics pick apply_custom on_metrics_zoom on_metrics_reset arrive
  step (loaded live stored) s = load_metrics lower_case inherited live stored s
  step (chosen name) s = fetch_metrics (record s { metrics_process = name })
  step (picked now r) s = pick to_local_input get_time now r s
  step (typed from to) s =
      if s.custom_shown then record s { from_input = from; to_input = to } else s
  step applied s = if s.custom_shown then apply_custom to_local_input get_time s else s
  step (zoomed_to from to) s = on_metrics_zoom to_local_input get_time from to s
  step reset s = on_metrics_reset to_local_input get_time s
  step ticked s = if is_custom s.metrics_range then s else fetch_metrics s
  step (arrived i result) s = arrive result (record s { pending = without i s.pending })

  unfoldable pub run : List Event → MetricsPage → MetricsPage
  unfolding step
  run [] s = s
  run (e ∷ es) s = run es (step e s)
