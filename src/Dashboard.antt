-- ===== src/Dashboard.antt =====
-- The dashboard (src/services/dashboard.service.ts and src/controllers/dashboard.controller.ts). What
-- node:os tells of the system is a parameter.
pub mod Totals
use pm2manager.Common.{ℕ, ◌+◌, String, List, [], ◌∷◌, filter, length, str_eq, if◌then◌else◌}
use pm2manager.Exec.{Exec, pure, try_catch, ◌>>=◌}
use pm2manager.Http.{Response, send_success}
use pm2manager.Activity.{ActivityRecord, ActivityLog, recent, recent_restarts}
use pm2manager.Pm2.Normalise.{ProcessSummary}
use pm2manager.Pm2.Service.{Daemon, DaemonStatus, Gateway, list, get_daemon_status}

pub record DashboardSummary (I : Type 0) : Type 0 where
  pub total_processes : ℕ
  pub online_processes : ℕ
  pub stopped_processes : ℕ
  pub errored_processes : ℕ
  pub total_cpu : ℕ
  pub total_memory : ℕ
  pub total_restarts : ℕ
  pub daemon : DaemonStatus
  pub system : I
  pub recent_activity : List ActivityRecord
  pub recent_restarts_of : List ActivityRecord

-- `processes.reduce((sum, p) => sum + f(p), 0)`
unfoldable pub sum_of : (ProcessSummary → ℕ) → List ProcessSummary → ℕ
sum_of f [] = 0
sum_of f (p ∷ ps) = f p + sum_of f ps

abbrev pub with_status : String → List ProcessSummary → ℕ
with_status status ps = length (filter (λ p. str_eq p.status status) ps)

unfoldable pub summary_of :
    {I : Type 0} → I → ActivityLog → List ProcessSummary → DaemonStatus → DashboardSummary I
unfolding sum_of
summary_of info log processes daemon = record {
  total_processes = length processes;
  online_processes = with_status "online" processes;
  stopped_processes = with_status "stopped" processes;
  errored_processes = with_status "errored" processes;
  total_cpu = sum_of (λ p. p.cpu) processes;
  total_memory = sum_of (λ p. p.memory) processes;
  total_restarts = sum_of (λ p. p.restart_count) processes;
  daemon = daemon;
  system = info;
  recent_activity = recent 10 log;
  recent_restarts_of = recent_restarts 10 log;
}

-- A failure to list counts as no processes.
unfoldable pub get_summary :
    {I : Type 0} → Daemon → I → ActivityLog → Exec Gateway (DashboardSummary I)
unfolding summary_of
get_summary d info log = do
  processes ← try_catch (list d) (λ e. pure [])
  daemon ← get_daemon_status d
  pure (summary_of info log processes daemon)

-- The handler.
unfoldable pub summary :
    {I : Type 0} → Daemon → I → ActivityLog → Exec Gateway (Response (DashboardSummary I))
unfolding get_summary send_success
summary d info log = do value ← get_summary d info log; pure (send_success value 200)
