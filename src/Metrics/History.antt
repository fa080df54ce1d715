-- ===== src/Metrics/History.antt =====
-- The history endpoints: src/controllers/history.controller.ts, the query that
-- src/validation/schemas.ts lets through to them, and `distinctNames` of
-- src/repositories/metrics.repository.ts. Times are natural numbers: a range that would reach below
-- time 0 begins there.
use pm2manager.Common.{
  ℕ, ◌-◌, ◌*◌, String, Bool, true, false, ◌&&◌, Option, none, some, List, [], ◌∷◌, any, map, filter,
  leb, or_else, is_blank, str_eq, codes, ◌≡◌, refl, ap, ◌∙◌, arith, Apart, if◌then◌else◌,
}
use pm2manager.Common.Sort.{sort, sort-Apart, length-filter-sort}
use pm2manager.Common.Distinct.{unseen, times, is_listed, times-unseen}
use pm2manager.Users.Order.{codes_le, codes_le-total, codes_le_trans}
use pm2manager.Metrics.{
  MetricRecord, Metrics, MetricPoint, AggregatePoint, series_for_process, aggregate_series,
}
use pm2manager.Settings.{Defaults, Settings, effective_retention_days}

-- `historyRangeEnum`
pub data HistoryRange : Type 0 where
  m15 m30 h1 h6 h12 h24 d7 d30 : HistoryRange

abbrev pub range_ms : HistoryRange → ℕ
range_ms m15 = 900000
range_ms m30 = 1800000
range_ms h1 = 3600000
range_ms h6 = 21600000
range_ms h12 = 43200000
range_ms h24 = 86400000
range_ms d7 = 604800000
range_ms d30 = 2592000000

abbrev pub day_ms : ℕ
day_ms = 86400000

pub record HistoryQuery : Type 0 where
  pub name : Option String
  pub range : HistoryRange
  pub since : Option ℕ
  pub until : Option ℕ

-- What the schema makes of a query, field by field: the range defaults to six hours.
abbrev pub history_query : Option String → Option HistoryRange → Option ℕ → Option ℕ → HistoryQuery
history_query name range since until = record {
  name = name;
  range = or_else range h6;
  since = since;
  until = until;
}

pub data Points : Type 0 where
  of_one : List MetricPoint → Points
  of_all : List AggregatePoint → Points

pub record HistoryAnswer : Type 0 where
  pub name : Option String
  pub since : ℕ
  pub until : ℕ
  pub points : Points

abbrev pub until_of : ℕ → HistoryQuery → ℕ
until_of now q = or_else q.until now

abbrev pub since_of : ℕ → HistoryQuery → ℕ
since_of now q = or_else q.since (until_of now q - range_ms q.range)

abbrev pub points_of : ℕ → ℕ → ℕ → Option String → Metrics → HistoryAnswer
points_of now since until none t = record {
  name = none;
  since = since;
  until = until;
  points = of_all (aggregate_series now since (some until) t);
}
points_of now since until (some name) t = record {
  name = some name;
  since = since;
  until = until;
  points = of_one (series_for_process now name since (some until) t);
}

-- `historyController.series`: the empty name counts as none.
unfoldable pub series : ℕ → HistoryQuery → Metrics → HistoryAnswer
series now q t =
    points_of now (since_of now q) (until_of now q) (if is_blank q.name then none else q.name) t

abbrev pub code_le : String → String → Bool
code_le a b = codes_le (codes a) (codes b)

abbrev pub names_since : ℕ → Metrics → List String
names_since since t = map (λ r. r.sample.name) (filter (λ r. leb since r.sample.timestamp) t.rows)

-- SELECT DISTINCT name … ORDER BY name
unfoldable pub distinct_names : ℕ → Metrics → List String
unfolding sort unseen codes_le
distinct_names since t = sort code_le (unseen (λ n. false) (names_since since t))

-- `historyController.names`
unfoldable pub names : ℕ → Defaults → Settings → Metrics → List String
unfolding distinct_names
names now d s t = distinct_names (now - effective_retention_days d s * day_ms) t

abbrev pub has_sample : ℕ → String → Metrics → Bool
has_sample since n t = any (λ r. leb since r.sample.timestamp && str_eq r.sample.name n) t.rows

has_sample_lem :
    (since : ℕ) (n : String) (rows : List MetricRecord)
    → is_listed n (map (λ r. r.sample.name) (filter (λ r. leb since r.sample.timestamp) rows))
      ≡ any (λ r. leb since r.sample.timestamp && str_eq r.sample.name n) rows
has_sample_lem since n [] = refl
has_sample_lem since n (r ∷ rows) = ground (arith, has_sample_lem since n rows)

-- The names are in order, and each process is named once that has a sample not older than `since`, and
-- no other.
pub distinct_names_exact :
    (since : ℕ) (t : Metrics)
    → Apart (λ a b. code_le a b ≡ true) (distinct_names since t)
      × ((n : String) → times n (distinct_names since t) ≡ (if has_sample since n t then 1 else 0))
unfolding distinct_names
distinct_names_exact since t = (
  sort-Apart code_le (λ a b. codes_le-total (codes a) (codes b))
      (λ a b c. codes_le_trans (codes a) (codes b) (codes c))
      (unseen (λ n. false) (names_since since t)),
  λ n.
      length-filter-sort code_le (λ m. str_eq m n) (unseen (λ n. false) (names_since since t))
      ∙ times-unseen n (λ n. false) (names_since since t)
      ∙ ap (λ b. if b then 1 else 0) (has_sample_lem since n t.rows),
)
