-- ===== src/Pm2/Service.antt =====
-- The operations of the PM2 service (src/services/pm2.service.ts). The pm2 package is a parameter,
-- `Daemon`, with the answers that it gives in one request; every call of an action is kept in `calls`.
-- A wait is over before the next call begins, but for the concurrent calls of `startAll`.
use pm2manager.Common.{
  ℕ, String, Bool, true, false, not, ◌&&◌, Option, none, some, List, [], ◌∷◌, ◌++◌, map, filter,
  length, str_eq, or_else, template, if◌then◌else◌,
}
use pm2manager.Common.Int.{ℤ, leb_ℤ}
use pm2manager.Common.Sort.{sort}
use pm2manager.Errors.{Failure, app, other, zod, pm2_error, unexpected}
use pm2manager.Exec.{
  Exec, Result, ok, err, pure, throw, fail, lift, gets, modify, when, try_catch, ◌>>=◌, ◌>>◌,
}
use pm2manager.Pm2.Normalise.{
  ProcessDescription, ProcessSummary, ProcessDetail, to_process_summary, to_process_detail,
}

-- A numeric `pm_id`, or a name; the texts are code units.
pub data Target : Type 0 where
  pm_id : ℤ → Target
  name : List ℕ → Target

pub data SingleAction : Type 0 where
  start stop restart reload delete : SingleAction

-- How the daemon answers a connection: `silent` is the timeout.
pub data Answer : Type 0 where
  reached : Answer
  refused : String → Answer
  silent : Answer

-- `none` for the error of a call is success; a list that the daemon leaves out is empty.
pub record Daemon : Type 0 where
  pub now : ℕ
  pub version : Option String
  pub connection : Answer
  pub bus_error : Option String
  pub listing : Result (Option (List ProcessDescription))
  pub description : Target → Result (Option (List ProcessDescription))
  pub outcome : SingleAction → Target → Option String

pub record Gateway : Type 0 where
  pub connected : Bool
  pub bus : Bool
  pub calls : List (SingleAction × Target)

-- The failure that an error of the daemon with that message is.
abbrev pub daemon_failure : String → Failure
daemon_failure message = unexpected message

abbrev pub p_list : Daemon → Exec Gateway (List ProcessDescription)
p_list d = do list ← lift d.listing; pure (or_else list [])

abbrev pub p_describe : Daemon → Target → Exec Gateway (List ProcessDescription)
p_describe d t = do list ← lift (d.description t); pure (or_else list [])

abbrev pub answered : Option String → Exec Gateway (Unit {0})
answered none = pure tt
answered (some message) = fail (daemon_failure message)

abbrev pub p_action : Daemon → SingleAction → Target → Exec Gateway (Unit {0})
p_action d action target =
    modify (λ g. record g { calls = g.calls ++ (action, target) ∷ [] })
    >> answered (d.outcome action target)

abbrev pub attempt : Answer → Exec Gateway (Unit {0})
attempt reached = modify (λ g. record g { connected = true })
attempt (refused message) = throw (pm2_error "Could not connect to the PM2 daemon" (some message))
attempt silent = throw (pm2_error "Timed out connecting to the PM2 daemon" none)

unfoldable pub connect : Daemon → Exec Gateway (Unit {0})
connect d = do connected ← gets (λ g. g.connected); when connected (pure tt) (attempt d.connection)

abbrev pub attach : Option String → Exec Gateway (Unit {0})
attach none = modify (λ g. record g { bus = true })
attach (some message) = throw (pm2_error "Failed to launch PM2 event bus" (some message))

-- A failure of the bus is swallowed.
unfoldable pub ensure_connected : Daemon → Exec Gateway (Unit {0})
unfolding connect
ensure_connected d = do
  connect d
  attached ← gets (λ g. g.bus)
  when attached (pure tt) (try_catch (attach d.bus_error) (λ e. pure tt))

-- `err.message`, or the text of another thrown value.
abbrev pub message_of : Failure → String
message_of (app e) = e.message
message_of (zod flattened) = flattened
message_of (other e) = or_else e.message ""

-- Connect, then run, and wrap what the operation throws; a failure to connect passes as it is.
unfoldable pub guarded : {A : Type 0} → Daemon → Exec Gateway A → String → Exec Gateway A
guarded d op message =
    ensure_connected d >> try_catch op (λ e. throw (pm2_error message (some (message_of e))))

pub record DaemonStatus : Type 0 where
  pub connected : Bool
  pub version : Option String
  pub process_count : ℕ

abbrev pub offline : Daemon → DaemonStatus
offline d = record { connected = false; version = d.version; process_count = 0 }

unfoldable pub get_daemon_status : Daemon → Exec Gateway DaemonStatus
get_daemon_status d =
    try_catch
      (do
        list ← guarded d (p_list d) "Failed to query PM2"
        connected ← gets (λ g. g.connected)
        pure (record { connected = connected; version = d.version; process_count = length list }))
      (λ e. pure (offline d))

abbrev pub id_le : ProcessSummary → ProcessSummary → Bool
id_le a b = leb_ℤ a.pm_id b.pm_id

unfoldable pub list : Daemon → Exec Gateway (List ProcessSummary)
list d = do
  descriptions ← guarded d (p_list d) "Failed to list PM2 processes"
  pure (sort id_le (map (to_process_summary d.now) descriptions))

abbrev pub first_detail : ℕ → List ProcessDescription → Option ProcessDetail
first_detail now [] = none
first_detail now (x ∷ xs) = some (to_process_detail now x)

-- The text of a target, as a template literal shows it, is a parameter: it stands in messages only.
unfoldable pub describe : (Target → String) → Daemon → Target → Exec Gateway (Option ProcessDetail)
describe show d target = do
  found ←
      guarded d (p_describe d target) (template "Failed to describe process \"" (show target) "\"")
  pure (first_detail d.now found)

-- `start`, `stop`, `restart`, `reload` and `remove`; starting is restarting.
abbrev pub pm2_call : SingleAction → SingleAction
pm2_call start = restart
pm2_call stop = stop
pm2_call restart = restart
pm2_call reload = reload
pm2_call delete = delete

abbrev pub verb_of : SingleAction → String
verb_of start = "start"
verb_of stop = "stop"
verb_of restart = "restart"
verb_of reload = "reload"
verb_of delete = "delete"

unfoldable pub act : (Target → String) → Daemon → SingleAction → Target → Exec Gateway (Unit {0})
act show d action target =
    guarded d (p_action d (pm2_call action) target)
      (template (template "Failed to " (verb_of action) " \"") (show target) "\"")

-- The keyword with which pm2 acts on every process.
abbrev pub all_processes : Target
all_processes = name (b'a' ∷ b'l' ∷ b'l' ∷ [])

abbrev pub is_empty : {A : Type 0} → List A → Bool
is_empty [] = true
is_empty (x ∷ xs) = false

abbrev pub on_all : Daemon → SingleAction → Exec Gateway (Unit {0})
on_all d action =
    guarded d (p_action d action all_processes)
      (template "Failed to " (verb_of action) " all processes")

-- `stopAll`, `restartAll` and `reloadAll`
unfoldable pub bulk : Daemon → SingleAction → Exec Gateway (Unit {0})
bulk d action = do procs ← list d; when (is_empty procs) (pure tt) (on_all d action)

abbrev pub is_down : ProcessSummary → Bool
is_down p = not (str_eq p.status "online") && not (str_eq p.status "launching")

-- `Promise.all`: each call is made, and the first error of the list is the error.
abbrev pub both : Result (Unit {0}) → Result (Unit {0}) → Result (Unit {0})
both (ok u) r = r
both (err e) r = err e

abbrev pub start_failure : ProcessSummary → String
start_failure p = template "Failed to start \"" p.name "\""

abbrev pub start_one : Daemon → ProcessSummary → Exec Gateway (Unit {0})
start_one d p = guarded d (p_action d restart (pm_id p.pm_id)) (start_failure p)

unfoldable pub start_each : Daemon → List ProcessSummary → Exec Gateway (Unit {0})
start_each d [] g = (ok tt, g)
start_each d (p ∷ ps) g =
    let (first, g') = start_one d p g in
    let (rest, g'') = start_each d ps g' in (both first rest, g'')

unfoldable pub start_all : Daemon → Exec Gateway (Unit {0})
start_all d = do procs ← list d; start_each d (filter is_down procs)

unfoldable pub init_bus : Daemon → Exec Gateway (Unit {0})
init_bus d = ensure_connected d

-- `disconnect`: the bus is closed and dropped if it can be closed, and the connection given up.
unfoldable pub disconnect : Bool → Gateway → Gateway
disconnect closable g = record g { connected = false; bus = if closable then false else g.bus }

unfoldable pub is_connected : Gateway → Bool
is_connected g = g.connected
