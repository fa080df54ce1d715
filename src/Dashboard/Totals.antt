-- ===== src/Dashboard/Totals.antt =====
-- What the dashboard shows (src/services/dashboard.service.ts).
use pm2manager.Common.{
  ◌+◌, ◌≤◌, ◌≡◌, refl, arith, String, List, [], ◌∷◌, length, length-take-le, str_eq, str_eq_iff,
  Bool-cases, inl, inr, if◌then◌else◌,
}
use pm2manager.Exec.{Result, ok, err, pure, try_catch, handle}
use pm2manager.Errors.{Failure}
use pm2manager.Activity.{ActivityLog, recent, recent_restarts}
use pm2manager.Activity.{list as list_activity}
use pm2manager.Pm2.Normalise.{ProcessSummary}
use pm2manager.Pm2.Service.{Daemon, DaemonStatus, Gateway, list, get_daemon_status, offline}
use pm2manager.Dashboard.{DashboardSummary, with_status, summary_of, get_summary}

one_status :
    (s : String)
    → (if str_eq s "online" then 1 else 0)
        + (if str_eq s "stopped" then 1 else 0)
        + (if str_eq s "errored" then 1 else 0)
      ≤ 1
one_status s = elim (Bool-cases (str_eq s "online")) [
  | inl e ↦ let same : s ≡ "online" = (str_eq_iff s "online").0 e in rw same (omega arith)
  | inr e ↦ elim (Bool-cases (str_eq s "stopped")) [
    | inl f ↦ let same : s ≡ "stopped" = (str_eq_iff s "stopped").0 f in rw same (omega arith)
    | inr f ↦ rw (e, f) (ground arith)
  ]
]

with_status_cons :
    (status : String) (p : ProcessSummary) (ps : List ProcessSummary)
    → with_status status (p ∷ ps)
      ≡ (if str_eq p.status status then 1 else 0) + with_status status ps
with_status_cons status p ps = ground arith

-- No process is counted under two of the statuses.
pub statuses_add_up :
    (ps : List ProcessSummary)
    → with_status "online" ps + with_status "stopped" ps + with_status "errored" ps ≤ length ps
statuses_add_up [] = omega arith
statuses_add_up (p ∷ ps) =
    let rest = statuses_add_up ps in
    let one = one_status p.status in
    rw
      (
        with_status_cons "online" p ps,
        with_status_cons "stopped" p ps,
        with_status_cons "errored" p ps,
      )
      (omega (arith, rest, one))

caught :
    {S A : Type 0} (r : Result A) (k : Failure → A) (s : S)
    → (v : A) × ((handle r (λ e. pure (k e)) s).0 ≡ ok v)
caught (ok a) k s = (a, refl)
caught (err e) k s = (k e, refl)

get_daemon_status_returns :
    (d : Daemon) (g : Gateway) → (v : DaemonStatus) × ((get_daemon_status d g).0 ≡ ok v)
unfolding get_daemon_status
get_daemon_status_returns d g = caught _ (λ e. offline d) _

length-recent-le : (log : ActivityLog) → length (recent 10 log) ≤ 10
unfolding recent list_activity
length-recent-le log = length-take-le 10 _

length-recent_restarts-le : (log : ActivityLog) → length (recent_restarts 10 log) ≤ 10
unfolding recent_restarts list_activity
length-recent_restarts-le log = length-take-le 10 _

-- What the summary keeps to, whatever it is made of.
abbrev pub IsBounded : {I : Type 0} → DashboardSummary I → Type 0
IsBounded v =
    (v.online_processes + v.stopped_processes + v.errored_processes ≤ v.total_processes)
    × (length v.recent_activity ≤ 10)
    × (length v.recent_restarts_of ≤ 10)

summary_of-IsBounded :
    {I : Type 0} (info : I) (log : ActivityLog) (ps : List ProcessSummary) (status : DaemonStatus)
    → IsBounded (summary_of info log ps status)
unfolding summary_of
summary_of-IsBounded info log ps status =
    (statuses_add_up ps, length-recent-le log, length-recent_restarts-le log)

-- Whatever the daemon answers, the dashboard is made and nothing is thrown; no process is counted under
-- two of the three statuses, and each of the two lists of activity has at most ten rows.
pub get_summary_returns :
    {I : Type 0} (d : Daemon) (info : I) (log : ActivityLog) (g : Gateway)
    → (v : DashboardSummary I) × ((get_summary d info log g).0 ≡ ok v) × IsBounded v
unfolding get_summary
get_summary_returns d info log g =
    let (ps, listed) = caught (list d g).0 (λ e. []) (list d g).1 in
    let (status, told) = get_daemon_status_returns d (try_catch (list d) (λ e. pure []) g).1 in
    (summary_of info log ps status, rw (listed, told) refl, summary_of-IsBounded info log ps status)
