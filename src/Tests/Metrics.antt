-- ===== src/Tests/Metrics.antt =====
-- The series of the history charts.
use pm2manager.Common.{◌≡◌, refl, some, [], ◌∷◌, map, String, ℕ}
use pm2manager.Common.Int.{pos}
use pm2manager.Metrics.{MetricInput, Metrics, insert_many, series_for_process}

abbrev sample : String → ℕ → MetricInput
sample name timestamp = record {
  pm_id = pos 0;
  name = name;
  status = "online";
  cpu = 3;
  memory = 10;
  uptime = 1;
  restart_count = 2;
  timestamp = timestamp;
}

abbrev table : Metrics
table =
    insert_many (sample "web" 5000 ∷ sample "api" 5000 ∷ sample "web" 5001 ∷ sample "web" 9999 ∷ [])
      (record { rows = []; last_id = 0 })

-- A window of 5000 ms has buckets of 10 ms: the two first samples of `web` are one point.
two_points :
    map (λ p. p.timestamp) (series_for_process 0 "web" 5000 (some 10000) table) ≡ 5000 ∷ 9990 ∷ []
unfolding series_for_process insert_many
two_points = refl
