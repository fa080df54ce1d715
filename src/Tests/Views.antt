-- ===== src/Tests/Views.antt =====
-- The process table and the metrics view of the page.
use pm2manager.Common.{
  ◌≡◌, refl, String, Bool, true, false, not, ◌&&◌, ◌||◌, none, some, List, [], ◌∷◌, str_eq, codes,
  Apart, if◌then◌else◌,
}
use pm2manager.Common.Int.{pos}
use pm2manager.Common.Distinct.{times, is_listed}
use pm2manager.Pm2.Normalise.{ProcessSummary}
use pm2manager.Metrics.{Metrics, MetricPoint, insert_many}
use pm2manager.Metrics.History.{m15, h1, h6, distinct_names, has_sample, series}
use pm2manager.Page.Table.{ProcSort, ProcFilter, SortKey, desc, sorted_filtered}
use pm2manager.Page.Metrics.{
  MetricsPage, preset, Event, chosen, picked, zoomed_to, arrived, got, lower_le, offered, run,
}
use pm2manager.Page.Metrics.Names.{offered_exact}
use pm2manager.Page.Metrics.Windows.{late_answer_shown}

abbrev web : ProcessSummary
web = record {
  pm_id = pos 1;
  name = "web";
  namespace = "default";
  status = "online";
  pid = some 12;
  cpu = 5;
  memory = 900;
  uptime = 1000;
  pm_uptime = some 10;
  restart_count = 0;
  unstable_restarts = 0;
  instances = 1;
  exec_mode = "fork";
  version = none;
  user = none;
  watching = false;
  autorestart = true;
}

abbrev by_cpu : ProcSort
by_cpu = record { key = SortKey.cpu; dir = desc }

abbrev online : ProcFilter
online = record { search = "w"; status_of = "online" }

abbrev table : List ProcessSummary
table =
    web
    ∷ record web { name = "worker"; cpu = 7 }
    ∷ record web { name = "db"; status = "stopped"; cpu = 0 }
    ∷ []

shown :
    sorted_filtered codes by_cpu online table ≡ record web { name = "worker"; cpu = 7 } ∷ web ∷ []
unfolding sorted_filtered
shown = refl

abbrev history_rows : Metrics
history_rows =
    insert_many
      (record {
        pm_id = pos 0;
        name = "web";
        status = "online";
        cpu = 3;
        memory = 10;
        uptime = 1;
        restart_count = 2;
        timestamp = 2600000000;
      }
        ∷ [])
      (record { rows = []; last_id = 0 })

-- A process called `constructor` has no place in the list.
abbrev inherited : String → Bool
inherited n = str_eq n "constructor" || str_eq n "toString"

abbrev live : List String
live = "db" ∷ "constructor" ∷ "web" ∷ []

one_hidden : offered codes inherited live (distinct_names 0 history_rows) ≡ "db" ∷ "web" ∷ []
unfolding offered distinct_names insert_many
one_hidden = refl

offered_exact_example :
    let names = offered codes inherited live (distinct_names 0 history_rows) in
    Apart (λ a b. lower_le codes inherited a b ≡ true) names
    × ((n : String)
        → times n names ≡ (
            if not (str_eq n "" || inherited n) && (is_listed n live || has_sample 0 n history_rows)
            then 1
            else 0))
offered_exact_example = offered_exact codes inherited live 0 history_rows

abbrev idle : MetricsPage
idle = record {
  options = "db" ∷ "web" ∷ [];
  metrics_process = none;
  metrics_range = preset h1;
  last_preset = h1;
  custom_from = none;
  custom_to = none;
  series = record { points = []; span = 0 };
  range_select = preset h1;
  custom_shown = false;
  from_input = "";
  to_input = "";
  error_shown = none;
  toasts = [];
  pending = [];
}

abbrev zooming : List Event
zooming =
    chosen (some "web") ∷ picked 2600000000 (preset m15) ∷ zoomed_to 2590000000 2600000000 ∷ []

three_queries :
    (run (λ n. "") (λ s. none) codes inherited zooming idle).pending
    ≡ record { name = some "web"; range = h1; since = none; until = none }
      ∷ record { name = some "web"; range = m15; since = none; until = none }
      ∷ record { name = some "web"; range = h6; since = some 2590000000; until = some 2600000000 }
      ∷ []
unfolding run
three_queries = refl

abbrev series_of_web : List MetricPoint
series_of_web =
    record {
      timestamp = 5;
      cpu = record { sum = 3; count = 1 };
      memory = record { sum = 10; count = 1 };
      restart_count = 2;
    }
    ∷ []

late_answer_shown_example :
    let shown =
      run
        (λ n. "")
        (λ s. none)
        codes
        inherited
        (chosen (some "web")
          ∷ chosen (some "db")
          ∷ arrived 1 (got 1 9 [])
          ∷ arrived 0 (got 1 9 series_of_web)
          ∷ [])
        idle in
    (shown.metrics_process ≡ some "db")
    × (shown.series.points ≡ series_of_web)
    × (shown.pending ≡ [])
late_answer_shown_example =
    late_answer_shown (λ n. "") (λ s. none) codes inherited "web" "db" h1 idle refl refl refl refl 1
      9 series_of_web []
