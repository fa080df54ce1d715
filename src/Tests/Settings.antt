-- ===== src/Tests/Settings.antt =====
-- The settings and the collector.
use pm2manager.Common.{◌≡◌, refl, not, filter, ltb, ◌+◌, ◌*◌, none, some, []}
use pm2manager.Activity.Retention.{is_young}
use pm2manager.Settings.Sweep.{run_retention_exact}
use pm2manager.Exec.{ok}
use pm2manager.Http.{send_success}
use pm2manager.Settings.{
  Defaults, Store, start, run_retention, get, update_settings, read_settings, get,
}
use pm2manager.Common.Numerals.{printed}
use pm2manager.Settings.Numbers.{number_of}
use pm2manager.Settings.Effect.{merged, period, update_settings-read_settings}
use pm2manager.Tests.Data.{env, signed_in}

abbrev defaults : Defaults
defaults = record { interval_seconds = 15; retention_days = 7; other_number = λ raw. none }

abbrev pub running : Store
running = record {
  web = signed_in;
  settings = [];
  metrics = record { rows = []; last_id = 0 };
  collect_timer = some 15000;
  retention_timer = some 3600000;
}

-- The default interval is what `start` uses where nothing is stored.
started : start defaults (record running { collect_timer = none; retention_timer = none }) ≡ running
unfolding start get
started = refl

-- An hour is printed and read.
hour : number_of (λ raw. none) (printed 3600) ≡ some 3600
unfolding number_of printed
hour = refl

update_settings-read_settings_example :
    let (out, after) = update_settings env defaults (some 60) none running in
    (out ≡ ok (send_success (merged defaults (some 60) none []) 200))
    × (read_settings defaults after.settings ≡ merged defaults (some 60) none [])
    × (after.collect_timer ≡ period defaults (some 60) running)
update_settings-read_settings_example =
    update_settings-read_settings env defaults (some 60) none running

run_retention_exact_example :
    ((run_retention defaults 900000000 running).metrics.rows
      ≡ filter (λ r. not (ltb (r.sample.timestamp + 7 * 86400000) 900000000)) running.metrics.rows)
    × ((run_retention defaults 900000000 running).web.log
        ≡ record running.web.log { rows = filter (is_young 900000000 30) running.web.log.rows })
run_retention_exact_example = run_retention_exact defaults 900000000 running
