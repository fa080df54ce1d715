-- ===== src/Metrics.antt =====
-- The metrics table: src/repositories/metrics.repository.ts and the table of src/db/schema.ts.
-- SQLite divides two times as doubles and cuts the quotient, which gives the quotient of the integers.
pub mod Grouping
pub mod Series
pub mod History
use pm2manager.Common.{
  ℕ, ◌+◌, ◌-◌, ◌*◌, ◌/◌, max, String, Bool, true, false, not, ◌&&◌, Option, none, some, List, [],
  ◌∷◌, ◌++◌, map, filter, length, leb, ltb, str_eq, or_else,
}
use pm2manager.Common.Int.{ℤ}
use pm2manager.Metrics.Grouping.{Group, group_by, total}

pub record MetricInput : Type 0 where
  pub pm_id : ℤ
  pub name : String
  pub status : String
  pub cpu : ℕ
  pub memory : ℕ
  pub uptime : ℕ
  pub restart_count : ℕ
  pub timestamp : ℕ

pub record MetricRecord : Type 0 where
  pub id : ℕ
  pub sample : MetricInput

-- Rows in the order of insertion, and the last id that AUTOINCREMENT has given.
pub record Metrics : Type 0 where
  pub rows : List MetricRecord
  pub last_id : ℕ

unfoldable pub insert_many : List MetricInput → Metrics → Metrics
insert_many [] t = t
insert_many (x ∷ xs) t = insert_many xs (record {
  rows = t.rows ++ (record { id = t.last_id + 1; sample = x }) ∷ [];
  last_id = t.last_id + 1;
})

abbrev pub target_points : ℕ
target_points = 500

-- `Math.max(1, Math.ceil(span / TARGET_POINTS))`, where `span` is at least 0
unfoldable pub bucket_ms_for : ℕ → ℕ → ℕ
bucket_ms_for since until = max 1 ((until - since + 499) / target_points)

-- AVG, as the sum and the number of the values.
pub record Average : Type 0 where
  pub sum : ℕ
  pub count : ℕ

abbrev pub average {ℓ} : {A : Type ℓ} → (A → ℕ) → List A → Average
average f xs = record { sum = total f xs; count = length xs }

-- MAX
unfoldable pub largest {ℓ} : {A : Type ℓ} → (A → ℕ) → List A → ℕ
largest f [] = 0
largest f (x ∷ xs) = max (f x) (largest f xs)

pub record MetricPoint : Type 0 where
  pub timestamp : ℕ
  pub cpu : Average
  pub memory : Average
  pub restart_count : ℕ

-- `timestamp >= since AND timestamp <= until`
abbrev pub in_window : ℕ → ℕ → ℕ → Bool
in_window since until timestamp = leb since timestamp && leb timestamp until

abbrev pub of_process : String → ℕ → ℕ → MetricRecord → Bool
of_process name since until r =
    str_eq r.sample.name name && in_window since until r.sample.timestamp

abbrev pub bucket_of : ℕ → MetricRecord → ℕ
bucket_of bucket r = r.sample.timestamp / bucket

abbrev pub point_of : ℕ → Group MetricRecord → MetricPoint
point_of bucket g = record {
  timestamp = g.key * bucket;
  cpu = average (λ r. r.sample.cpu) g.members;
  memory = average (λ r. r.sample.memory) g.members;
  restart_count = largest (λ r. r.sample.restart_count) g.members;
}

-- `until` is the time of the call where it is missing. GROUP BY with ORDER BY is `group_by`.
unfoldable pub series_for_process : ℕ → String → ℕ → Option ℕ → Metrics → List MetricPoint
unfolding bucket_ms_for group_by
series_for_process now name since until t =
    let upper = or_else until now in
    let bucket = bucket_ms_for since upper in
    map (point_of bucket)
      (group_by (bucket_of bucket) (filter (of_process name since upper) t.rows))

-- The sums over all processes at one time.
pub record Sample : Type 0 where
  pub timestamp : ℕ
  pub cpu : ℕ
  pub memory : ℕ

abbrev pub sample_of : Group MetricRecord → Sample
sample_of g = record {
  timestamp = g.key;
  cpu = total (λ r. r.sample.cpu) g.members;
  memory = total (λ r. r.sample.memory) g.members;
}

unfoldable pub samples : ℕ → ℕ → Metrics → List Sample
unfolding group_by
samples since until t = map sample_of (
    group_by (λ r. r.sample.timestamp)
      (filter (λ r. in_window since until r.sample.timestamp) t.rows))

pub record AggregatePoint : Type 0 where
  pub timestamp : ℕ
  pub cpu : Average
  pub memory : Average

abbrev pub aggregate_of : ℕ → Group Sample → AggregatePoint
aggregate_of bucket g = record {
  timestamp = g.key * bucket;
  cpu = average (λ s. s.cpu) g.members;
  memory = average (λ s. s.memory) g.members;
}

unfoldable pub aggregate_series : ℕ → ℕ → Option ℕ → Metrics → List AggregatePoint
unfolding samples bucket_ms_for group_by
aggregate_series now since until t =
    let upper = or_else until now in
    let bucket = bucket_ms_for since upper in
    map (aggregate_of bucket) (group_by (λ s. s.timestamp / bucket) (samples since upper t))

-- The rows that stay, and how many went.
unfoldable pub delete_older_than : ℕ → Metrics → ℕ × Metrics
delete_older_than cutoff_ms t = (
  length (filter (λ r. ltb r.sample.timestamp cutoff_ms) t.rows),
  record t { rows = filter (λ r. not (ltb r.sample.timestamp cutoff_ms)) t.rows },
)
