-- ===== src/Tests/Dashboard.antt =====
-- The dashboard.
use pm2manager.Common.{ℕ, ◌≡◌, []}
use pm2manager.Exec.{ok, err}
use pm2manager.Errors.{unexpected}
use pm2manager.Activity.{ActivityLog}
use pm2manager.Pm2.Service.{Daemon}
use pm2manager.Dashboard.{DashboardSummary, get_summary}
use pm2manager.Dashboard.Totals.{IsBounded, get_summary_returns}
use pm2manager.Tests.Processes.{daemon, idle}

abbrev empty_log : ActivityLog
empty_log = record { rows = []; last_id = 0 }

-- The daemon lists nothing but an error.
abbrev failing : Daemon
failing = record daemon { listing = err (unexpected "ECONNREFUSED") }

get_summary_returns_example :
    (v : DashboardSummary ℕ) × ((get_summary failing 0 empty_log idle).0 ≡ ok v) × IsBounded v
get_summary_returns_example = get_summary_returns failing 0 empty_log idle
