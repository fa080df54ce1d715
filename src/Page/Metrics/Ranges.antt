-- ===== src/Page/Metrics/Ranges.antt =====
-- The range of the metrics view: which windows it asks the server for, and what it shows of the answers.
use mathlib.Core.Path.{subst}
use pm2manager.Common.{
  ℕ, ◌-◌, ◌≤◌, ◌≡◌, refl, sym, ◌∙◌, arith, String, Bool, true, Option, none, some, List, [], ◌∷◌,
  All, ltb, leb, ◌||◌, str_eq,
}
use pm2manager.Metrics.History.{HistoryRange}
use pm2manager.Page.Metrics.{
  MetricsRange, preset, custom, is_custom, MetricsPage, fetch_metrics, without, zoomed,
  on_metrics_zoom, on_metrics_reset, with_custom, to_custom, to_preset, restored, with_times, pick,
  apply_times, apply_custom, offered, with_names, with_controls, load_metrics, Event, loaded,
  chosen, picked, typed, applied, zoomed_to, reset, ticked, arrived, step, run,
}
use pm2manager.Page.Metrics.Queries.{
  Matches, Asks, IsRanged, IsRanged-if, fetch_metrics-IsRanged, arrive-IsRanged, All-without,
}

-- A window picked before any time has passed would be empty.
abbrev pub IsTimed : Event → Type 0
IsTimed (picked now r) = 1 ≤ now
IsTimed _ = Unit

is_custom_iff : (r : MetricsRange) → is_custom r ≡ true → r ≡ custom
is_custom_iff (preset r) e = cc
is_custom_iff custom e = refl

still_custom :
    (r : MetricsRange) (from : ℕ) (to : Option ℕ) (last : HistoryRange)
    → Matches r (some from) to last
    → Matches custom (some from) to last
still_custom (preset r) from none last m = absurd m
still_custom (preset r) from (some to) last m = absurd m
still_custom custom from none last m = absurd m
still_custom custom from (some to) last m = m

module _ (to_local_input : ℕ → String) (get_time : String → Option ℕ) where
  with_custom-IsRanged :
      (now : ℕ) (from to : Option ℕ) (s : MetricsPage)
      → 1 ≤ now
      → s.custom_from ≡ from
      → IsRanged s
      → IsRanged
          (record (with_custom to_local_input get_time now from to
            (record s { range_select = custom })) { custom_shown = true })
  with_custom-IsRanged now none to s n f h = record {
    range = omega arith;
    select = refl;
    shown = refl;
    asked = h.asked;
  }
  with_custom-IsRanged now (some from) to s n f h = record {
    range =
        subst (λ o. Matches custom o s.custom_to s.last_preset) (sym f)
          (still_custom s.metrics_range from s.custom_to s.last_preset
            (subst (λ o. Matches s.metrics_range o s.custom_to s.last_preset) f h.range));
    select = refl;
    shown = refl;
    asked = h.asked;
  }

  pick-IsRanged :
      (now : ℕ) (r : MetricsRange) (s : MetricsPage)
      → 1 ≤ now
      → IsRanged s
      → IsRanged (pick to_local_input get_time now r s)
  unfolding pick
  pick-IsRanged now (preset r) s n h =
      fetch_metrics-IsRanged (to_preset to_local_input get_time r s)
        (record { range = refl; select = refl; shown = refl; asked = h.asked })
  pick-IsRanged now custom s n h =
      fetch_metrics-IsRanged (to_custom to_local_input get_time now s)
        (with_custom-IsRanged now s.custom_from s.custom_to s n refl h)

  zoom-IsRanged :
      (from to : ℕ) (s : MetricsPage)
      → IsRanged s
      → IsRanged (on_metrics_zoom to_local_input get_time from to s)
  unfolding on_metrics_zoom
  zoom-IsRanged from to s h =
      IsRanged-if (ltb 1000 (to - from)) (fetch_metrics (zoomed to_local_input get_time from to s))
        s
        (λ e.
          fetch_metrics-IsRanged (zoomed to_local_input get_time from to s)
            (record { range = ground (arith, e); select = refl; shown = refl; asked = h.asked }))
        (λ e. h)

  reset-IsRanged :
      (s : MetricsPage) → IsRanged s → IsRanged (on_metrics_reset to_local_input get_time s)
  unfolding on_metrics_reset
  reset-IsRanged s h =
      fetch_metrics-IsRanged (restored to_local_input get_time s)
        (record { range = refl; select = refl; shown = refl; asked = h.asked })

  apply_times-IsRanged :
      (from to : Option ℕ) (s : MetricsPage)
      → s.custom_shown ≡ true
      → IsRanged s
      → IsRanged (apply_times to_local_input get_time from to s)
  apply_times-IsRanged none to s c h = record {
    range = h.range;
    select = h.select;
    shown = h.shown;
    asked = h.asked;
  }
  apply_times-IsRanged (some from) none s c h = record {
    range = h.range;
    select = h.select;
    shown = h.shown;
    asked = h.asked;
  }
  apply_times-IsRanged (some from) (some to) s c h =
      IsRanged-if (leb to from) _ (fetch_metrics (with_times to_local_input get_time from to s))
        (λ e. record { range = h.range; select = h.select; shown = h.shown; asked = h.asked })
        (λ e. fetch_metrics-IsRanged (with_times to_local_input get_time from to s) (record {
          range = ground (arith, e);
          select = h.select ∙ is_custom_iff s.metrics_range (sym h.shown ∙ c);
          shown = c;
          asked = h.asked;
        }))

  apply-IsRanged :
      (s : MetricsPage)
      → s.custom_shown ≡ true
      → IsRanged s
      → IsRanged (apply_custom to_local_input get_time s)
  unfolding apply_custom
  apply-IsRanged s c h =
      IsRanged-if (str_eq s.from_input "" || str_eq s.to_input "") _ _
        (λ e. record { range = h.range; select = h.select; shown = h.shown; asked = h.asked })
        (λ e. apply_times-IsRanged (get_time s.from_input) (get_time s.to_input) s c h)

with_names-IsRanged :
    (names : List String) (s : MetricsPage)
    → IsRanged s
    → IsRanged (with_controls (with_names names s))
with_names-IsRanged [] s h = record {
  range = h.range;
  select = refl;
  shown = refl;
  asked = h.asked;
}
with_names-IsRanged (n ∷ ns) s h = record {
  range = h.range;
  select = refl;
  shown = refl;
  asked = h.asked;
}

module _ (to_local_input : ℕ → String) (get_time : String → Option ℕ) (lower_case : String → List ℕ)
    (inherited : String → Bool) where
  load-IsRanged :
      (live stored : List String) (s : MetricsPage)
      → IsRanged s
      → IsRanged (load_metrics lower_case inherited live stored s)
  unfolding load_metrics
  load-IsRanged live stored s h =
      let names = offered lower_case inherited live stored in
      fetch_metrics-IsRanged (with_controls (with_names names s)) (with_names-IsRanged names s h)

  step-IsRanged :
      (e : Event) (s : MetricsPage)
      → IsTimed e
      → IsRanged s
      → IsRanged (step to_local_input get_time lower_case inherited e s)
  unfolding step
  step-IsRanged (loaded live stored) s i h = load-IsRanged live stored s h
  step-IsRanged (chosen name) s i h =
      fetch_metrics-IsRanged (record s { metrics_process = name })
        (record { range = h.range; select = h.select; shown = h.shown; asked = h.asked })
  step-IsRanged (picked now r) s i h = pick-IsRanged to_local_input get_time now r s i h
  step-IsRanged (typed from to) s i h =
      IsRanged-if s.custom_shown (record s { from_input = from; to_input = to }) s
        (λ e. record { range = h.range; select = h.select; shown = h.shown; asked = h.asked })
        (λ e. h)
  step-IsRanged applied s i h =
      IsRanged-if s.custom_shown (apply_custom to_local_input get_time s) s
        (λ c. apply-IsRanged to_local_input get_time s c h) (λ e. h)
  step-IsRanged (zoomed_to from to) s i h = zoom-IsRanged to_local_input get_time from to s h
  step-IsRanged reset s i h = reset-IsRanged to_local_input get_time s h
  step-IsRanged ticked s i h =
      IsRanged-if (is_custom s.metrics_range) s (fetch_metrics s) (λ e. h)
        (λ e. fetch_metrics-IsRanged s h)
  step-IsRanged (arrived k result) s i h =
      arrive-IsRanged result (record s { pending = without k s.pending })
        (record {
          range = h.range;
          select = h.select;
          shown = h.shown;
          asked = All-without Asks k s.pending h.asked;
        })

  -- Whatever is loaded, chosen, typed, applied, zoomed into or reset, and whenever answers come: the
  -- select and the inputs show the range in effect, a custom range has two ends in order, another has none
  -- and is the one that a reset restores, and each query asks for a process and names two ends in order or
  -- none.
  pub run-IsRanged :
      (es : List Event) (s : MetricsPage)
      → All IsTimed es
      → IsRanged s
      → IsRanged (run to_local_input get_time lower_case inherited es s)
  unfolding run
  run-IsRanged [] s i h = h
  run-IsRanged (e ∷ es) s (i, is) h =
      run-IsRanged es (step to_local_input get_time lower_case inherited e s) is
        (step-IsRanged e s i h)
