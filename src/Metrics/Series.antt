-- ===== src/Metrics/Series.antt =====
-- What a chart gets: few points, in order, that cover every sample of the window
-- (src/repositories/metrics.repository.ts).
use native.Mathlib.Nat
use pm2manager.Common.{
  ℕ, ◌+◌, ◌-◌, ◌*◌, ◌/◌, ◌≡◌, ◌≤◌, ◌<◌, refl, sym, ◌∙◌, String, Bool, true, Option, List, [], ◌∷◌,
  map, filter, length, or_else, arith, All, All-weaken, Apart, Bool-cases, inl, inr,
}
use pm2manager.Metrics.Grouping.{
  Group, group_by, Ascending, Ascending-group_by, length-Ascending, Apart-Ascending, total-group_by,
  All-group_by, total,
}
use pm2manager.Metrics.{
  Metrics, MetricRecord, MetricPoint, AggregatePoint, Sample, bucket_ms_for, bucket_of, point_of,
  of_process, in_window, series_for_process, aggregate_series, samples, sample_of, aggregate_of,
}

-- A bucket is at least 1 ms, and 500 of them reach over the window.
bucket_ms_for_covers :
    (since until : ℕ)
    → (1 ≤ bucket_ms_for since until) × (until - since ≤ 500 * bucket_ms_for since until)
unfolding bucket_ms_for
bucket_ms_for_covers since until = (omega arith, omega arith)

-- The times of a window fall in at most 501 buckets.
buckets_le :
    (since until b t : ℕ)
    → 1 ≤ b
    → until - since ≤ 500 * b
    → since ≤ t
    → t ≤ until
    → (since / b ≤ t / b) × (t / b < since / b + 501)
buckets_le since until b t h k l u =
    let below = Nat.div-mul-le_self since b in
    let above = Nat.lt-div-mul-add {a = since} h in
    let product : (since / b + 501) * b ≡ since / b * b + 501 * b = omega arith in
    (
      (Nat.le-div_iff_mul-le h).1 (omega (arith, below)),
      (Nat.div-lt_iff_lt-mul h).1 (omega (arith, above, product)),
    )

filter_passes {ℓ} : {A : Type ℓ} (p : A → Bool) (xs : List A) → All (λ x. p x ≡ true) (filter p xs)
filter_passes p [] = tt
filter_passes p (x ∷ xs) =
    let rest = filter_passes p xs in
    elim (Bool-cases (p x)) [ inl e ↦ rw e (e, rest) | inr e ↦ rw e rest ]

total-map {ℓ} :
    {A B : Type ℓ} (f : B → ℕ) (g : A → B) (xs : List A)
    → total f (map g xs) ≡ total (λ x. f (g x)) xs
unfolding total
total-map f g [] = refl
total-map f g (x ∷ xs) = omega (arith, total-map f g xs)

total-length {ℓ} : {A : Type ℓ} (xs : List A) → total (λ x. 1) xs ≡ length xs
unfolding total
total-length [] = refl
total-length (x ∷ xs) = omega (arith, total-length xs)

total_congr {ℓ} :
    {A : Type ℓ} (f g : A → ℕ) (xs : List A) → ((x : A) → f x ≡ g x) → total f xs ≡ total g xs
unfolding total
total_congr f g [] h = refl
total_congr f g (x ∷ xs) h = omega (arith, h x, total_congr f g xs h)

-- Of the times of a window, grouped by bucket, there are few groups, and they ascend.
grouped :
    {A : Type 0} (since until : ℕ) (time : A → ℕ) (as' : List A)
    → All (λ a. (since ≤ time a) × (time a ≤ until)) as'
    → let b = bucket_ms_for since until in
      Ascending (λ a. time a / b) (since / b) (since / b + 501) (group_by (λ a. time a / b) as')
grouped since until time as' h =
    let b = bucket_ms_for since until in
    let (positive, covers) = bucket_ms_for_covers since until in
    Ascending-group_by (λ a. time a / b) (since / b) (since / b + 501) as' (omega arith)
      (All-weaken _ (λ a. (since / b ≤ time a / b) × (time a / b < since / b + 501))
        (λ a (l, u). buckets_le since until b (time a) positive covers l u) as' h)

-- What a chart gets of the samples `rows`: at most 501 points, with ascending times, whose averages
-- are of all the samples together, none lost and none counted twice.
pub record IsSeries (rows : List MetricRecord) (points : List MetricPoint) : Type 0 where
  pub few : length points ≤ 501
  pub ascending : Apart (λ p q. p.timestamp < q.timestamp) points
  pub cpu : total (λ p. p.cpu.sum) points ≡ total (λ r. r.sample.cpu) rows
  pub memory : total (λ p. p.memory.sum) points ≡ total (λ r. r.sample.memory) rows
  pub counted : total (λ p. p.cpu.count) points ≡ length rows

length-map {ℓ} : {A B : Type ℓ} (f : A → B) (xs : List A) → length (map f xs) ≡ length xs
length-map f [] = refl
length-map f (x ∷ xs) = omega (arith, length-map f xs)

-- The series of one process over a window has at most 501 points, with ascending times, and their
-- averages together are of all the samples of that process in the window, each counted once.
pub series_for_process-IsSeries :
    (now : ℕ) (name : String) (since : ℕ) (until : Option ℕ) (t : Metrics)
    → IsSeries
        (filter (of_process name since (or_else until now)) t.rows)
        (series_for_process now name since until t)
unfolding series_for_process
series_for_process-IsSeries now name since until t =
    let upper = or_else until now in
    let b = bucket_ms_for since upper in
    let rows = filter (of_process name since upper) t.rows in
    let groups = group_by (bucket_of b) rows in
    let inside : All (λ r. (since ≤ r.sample.timestamp) × (r.sample.timestamp ≤ upper)) rows =
      All-weaken (λ r. of_process name since upper r ≡ true) _ (λ r h. ground arith) rows
        (filter_passes (of_process name since upper) t.rows) in
    let s = grouped since upper (λ r. r.sample.timestamp) rows inside in
    record {
      few =
          omega
            (arith, length-map (point_of b) groups, length-Ascending (bucket_of b) _ _ groups s);
      ascending =
          Apart-Ascending (bucket_of b) b (point_of b) (λ p. p.timestamp) (λ g. refl)
            (bucket_ms_for_covers since upper).0 _ _ groups s;
      cpu =
          total-map (λ p. p.cpu.sum) (point_of b) groups
          ∙ total-group_by (bucket_of b) (λ r. r.sample.cpu) rows;
      memory =
          total-map (λ p. p.memory.sum) (point_of b) groups
          ∙ total-group_by (bucket_of b) (λ r. r.sample.memory) rows;
      counted =
          total-map (λ p. p.cpu.count) (point_of b) groups
          ∙ total_congr (λ g. length g.members) (λ g. total (λ r. 1) g.members) groups
              (λ g. sym (total-length g.members))
          ∙ total-group_by (bucket_of b) (λ r. 1) rows
          ∙ total-length rows;
    }

-- The same of the sums over all processes: at most 501 points, with ascending times, whose averages
-- are of sums that together are of all the rows.
pub record IsAggregate (rows : List MetricRecord) (points : List AggregatePoint) : Type 0 where
  pub few : length points ≤ 501
  pub ascending : Apart (λ p q. p.timestamp < q.timestamp) points
  pub cpu : total (λ p. p.cpu.sum) points ≡ total (λ r. r.sample.cpu) rows
  pub memory : total (λ p. p.memory.sum) points ≡ total (λ r. r.sample.memory) rows

All-map_to {ℓ} :
    {A B : Type ℓ} (P : B → Type 0) (f : A → B) (xs : List A)
    → All (λ x. P (f x)) xs
    → All P (map f xs)
All-map_to P f [] h = tt
All-map_to P f (x ∷ xs) (h, hs) = (h, All-map_to P f xs hs)

samples_inside :
    (since upper : ℕ) (t : Metrics)
    → All (λ s. (since ≤ s.timestamp) × (s.timestamp ≤ upper)) (samples since upper t)
unfolding samples
samples_inside since upper t =
    let time : MetricRecord → ℕ = λ r. r.sample.timestamp in
    let rows = filter (λ r. in_window since upper (time r)) t.rows in
    let inside : All (λ r. (since ≤ time r) × (time r ≤ upper)) rows =
      All-weaken (λ r. in_window since upper (time r) ≡ true) _ (λ r h. ground arith) rows
        (filter_passes (λ r. in_window since upper (time r)) t.rows) in
    All-map_to _ sample_of (group_by time rows)
      (All-group_by time (λ k. (since ≤ k) × (k ≤ upper)) rows inside)

total-samples :
    (f : MetricRecord → ℕ) (g : Sample → ℕ)
    → ((h : Group MetricRecord) → g (sample_of h) ≡ total f h.members)
    → (since upper : ℕ) (t : Metrics)
    → total g (samples since upper t)
      ≡ total f (filter (λ r. in_window since upper r.sample.timestamp) t.rows)
unfolding samples
total-samples f g e since upper t =
    let time : MetricRecord → ℕ = λ r. r.sample.timestamp in
    let rows = filter (λ r. in_window since upper (time r)) t.rows in
    let groups = group_by time rows in
    total-map g sample_of groups
    ∙ total_congr (λ h. g (sample_of h)) (λ h. total f h.members) groups e
    ∙ total-group_by time f rows

-- The aggregate series over a window has at most 501 points, with ascending times, and the sums that
-- its averages are of add up to those of all the samples in the window.
pub aggregate_series-IsAggregate :
    (now since : ℕ) (until : Option ℕ) (t : Metrics)
    → IsAggregate
        (filter (λ r. in_window since (or_else until now) r.sample.timestamp) t.rows)
        (aggregate_series now since until t)
unfolding aggregate_series
aggregate_series-IsAggregate now since until t =
    let upper = or_else until now in
    let b = bucket_ms_for since upper in
    let all = samples since upper t in
    let key : Sample → ℕ = λ s. s.timestamp / b in
    let groups = group_by key all in
    let s = grouped since upper (λ s. s.timestamp) all (samples_inside since upper t) in
    record {
      few = omega (arith, length-map (aggregate_of b) groups, length-Ascending key _ _ groups s);
      ascending =
          Apart-Ascending key b (aggregate_of b) (λ p. p.timestamp) (λ g. refl)
            (bucket_ms_for_covers since upper).0 _ _ groups s;
      cpu =
          total-map (λ p. p.cpu.sum) (aggregate_of b) groups
          ∙ total-group_by key (λ s. s.cpu) all
          ∙ total-samples (λ r. r.sample.cpu) (λ s. s.cpu) (λ h. refl) since upper t;
      memory =
          total-map (λ p. p.memory.sum) (aggregate_of b) groups
          ∙ total-group_by key (λ s. s.memory) all
          ∙ total-samples (λ r. r.sample.memory) (λ s. s.memory) (λ h. refl) since upper t;
    }
