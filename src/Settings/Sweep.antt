-- ===== src/Settings/Sweep.antt =====
-- What the retention sweep leaves (src/services/metrics.service.ts).
use pm2manager.Common.{ℕ, ◌+◌, ◌-◌, ◌*◌, max, ◌≡◌, not, filter, filter_congr, ltb, arith}
use pm2manager.Metrics.{MetricRecord}
use pm2manager.Activity.Retention.{is_young, prune_exact}
use pm2manager.Settings.{Defaults, Store, run_retention, effective_retention_days}

recent_lem :
    (now days t : ℕ) → not (ltb t (now - days * 86400000)) ≡ not (ltb (t + days * 86400000) now)
recent_lem now days t = ground arith

-- The sweep keeps exactly the samples that are not older than the days of retention in effect, and
-- exactly the rows of the audit log that are younger than four times as many days, and than 30.
pub run_retention_exact :
    (d : Defaults) (now : ℕ) (s : Store)
    → let days = effective_retention_days d s.settings in
      let after = run_retention d now s in
      (after.metrics.rows
        ≡ filter (λ r. not (ltb (r.sample.timestamp + days * 86400000) now)) s.metrics.rows)
      × (after.web.log
          ≡ record s.web.log { rows = filter (is_young now (max (days * 4) 30)) s.web.log.rows })
unfolding run_retention
run_retention_exact d now s =
    let days = effective_retention_days d s.settings in
    (
      filter_congr (λ (r : MetricRecord). not (ltb r.sample.timestamp (now - days * 86400000)))
          (λ (r : MetricRecord). not (ltb (r.sample.timestamp + days * 86400000) now))
          (λ r. recent_lem now days r.sample.timestamp) s.metrics.rows,
      (prune_exact now (max (days * 4) 30) s.web.log).0,
    )
