-- ===== src/Pm2/Laws.antt =====
-- What the PM2 service throws, and which calls it makes (src/services/pm2.service.ts).
use pm2manager.Common.{
  ◌≡◌, refl, String, Bool, true, false, Option, some, List, [], ◌∷◌, map, filter, template,
}
use pm2manager.Errors.{Failure, app, pm2_error}
use pm2manager.Exec.{
  Exec, Result, ok, err, pure, throw, gets, when, try_catch, ◌>>=◌, ErrorsIn, ErrorsIn-bind,
  ErrorsIn-try_catch,
}
use pm2manager.Pm2.Normalise.{ProcessSummary, to_process_summary}
use pm2manager.Common.Sort.{sort}
use pm2manager.Pm2.Service.{
  Target, pm_id, SingleAction, restart, Daemon, Gateway, Answer, reached, refused, silent, attempt,
  attach, connect, ensure_connected, guarded, message_of, p_list, p_describe, p_action, list,
  describe, act, bulk, start_all, start_each, is_down, is_empty, all_processes, both, start_one,
  start_failure, on_all, id_le, first_detail, pm2_call,
}

-- An error of the class `Pm2Error`, which is answered by 502.
pub record IsPm2Error (f : Failure) : Type 0 where
  pub message : String
  pub details : Option String
  pub typed : f ≡ app (pm2_error message details)

attempt-errors : (a : Answer) (g : Gateway) → ErrorsIn IsPm2Error (attempt a g).0
attempt-errors reached g = tt
attempt-errors (refused m) g = record { message = _; details = _; typed = refl }
attempt-errors silent g = record { message = _; details = _; typed = refl }

connect-errors : (d : Daemon) (g : Gateway) → ErrorsIn IsPm2Error (connect d g).0
connect-errors d g = unfold connect in connected g.connected
  where
    connected : (b : Bool) → ErrorsIn IsPm2Error (when b (pure tt) (attempt d.connection) g).0
    connected true = tt
    connected false = attempt-errors d.connection g

ensure_connected-errors : (d : Daemon) (g : Gateway) → ErrorsIn IsPm2Error (ensure_connected d g).0
ensure_connected-errors d g =
    unfold ensure_connected in
    ErrorsIn-bind IsPm2Error (connect d)
      (λ _. do
        attached ← gets (λ g. g.bus)
        when attached (pure tt) (try_catch (attach d.bus_error) (λ e. pure tt)))
      g (connect-errors d g) (λ _. retried (connect d g).1.bus (connect d g).1)
  where
    retried :
        (b : Bool) (g' : Gateway)
        → ErrorsIn IsPm2Error
            (when b (pure tt) (try_catch (attach d.bus_error) (λ e. pure tt)) g').0
    retried true g' = tt
    retried false g' =
        ErrorsIn-try_catch IsPm2Error (attach d.bus_error) (λ e. pure tt) g' (λ e. tt)

-- Whatever the operation throws, `guarded` throws a `Pm2Error`.
guarded-errors :
    {A : Type 0} (d : Daemon) (op : Exec Gateway A) (message : String) (g : Gateway)
    → ErrorsIn IsPm2Error (guarded d op message g).0
guarded-errors d op message g =
    unfold guarded in
    ErrorsIn-bind IsPm2Error (ensure_connected d)
      (λ _. try_catch op (λ e. throw (pm2_error message (some (message_of e))))) g
      (ensure_connected-errors d g)
      (λ _.
        ErrorsIn-try_catch IsPm2Error op (λ e. throw (pm2_error message (some (message_of e))))
          (ensure_connected d g).1 (λ e. record { message = _; details = _; typed = refl }))

list-errors : (d : Daemon) (g : Gateway) → ErrorsIn IsPm2Error (list d g).0
list-errors d g =
    unfold list in
    ErrorsIn-bind IsPm2Error (guarded d (p_list d) "Failed to list PM2 processes")
      (λ descriptions. pure (sort id_le (map (to_process_summary d.now) descriptions))) g
      (guarded-errors d (p_list d) "Failed to list PM2 processes" g) (λ _. tt)

both-errors :
    (r s : Result (Unit {0}))
    → ErrorsIn IsPm2Error r
    → ErrorsIn IsPm2Error s
    → ErrorsIn IsPm2Error (both r s)
both-errors (ok u) s h k = k
both-errors (err e) s h k = h

start_each-errors :
    (d : Daemon) (ps : List ProcessSummary) (g : Gateway)
    → ErrorsIn IsPm2Error (start_each d ps g).0
unfolding start_each
start_each-errors d [] g = tt
start_each-errors d (p ∷ ps) g =
    both-errors _ _ (guarded-errors d (p_action d restart (pm_id p.pm_id)) (start_failure p) g)
      (start_each-errors d ps (start_one d p g).1)

describe-errors :
    (show : Target → String) (d : Daemon) (t : Target) (g : Gateway)
    → ErrorsIn IsPm2Error (describe show d t g).0
describe-errors show d t g =
    unfold describe in
    ErrorsIn-bind IsPm2Error
      (guarded d (p_describe d t) (template "Failed to describe process \"" (show t) "\""))
      (λ found. pure (first_detail d.now found)) g (guarded-errors d (p_describe d t) _ g) (λ _. tt)

bulk-errors :
    (d : Daemon) (action : SingleAction) (g : Gateway) → ErrorsIn IsPm2Error (bulk d action g).0
bulk-errors d action g =
    unfold bulk in
    ErrorsIn-bind IsPm2Error (list d) (λ procs. when (is_empty procs) (pure tt) (on_all d action)) g
      (list-errors d g) (λ procs. acted (is_empty procs) (list d g).1)
  where
    acted :
        (b : Bool) (g' : Gateway) → ErrorsIn IsPm2Error (when b (pure tt) (on_all d action) g').0
    acted true g' = tt
    acted false g' = guarded-errors d (p_action d action all_processes) _ g'

-- Every operation of the gateway throws nothing but a `Pm2Error`, whatever the daemon answers: the
-- list, a description, an action on one process, an action on all of them, and the start of all.
pub operations-errors :
    (show : Target → String) (d : Daemon) (t : Target) (action : SingleAction) (g : Gateway)
    → ErrorsIn IsPm2Error (list d g).0
      × ErrorsIn IsPm2Error (describe show d t g).0
      × ErrorsIn IsPm2Error (act show d action t g).0
      × ErrorsIn IsPm2Error (bulk d action g).0
      × ErrorsIn IsPm2Error (start_all d g).0
operations-errors show d t action g = (
  list-errors d g,
  describe-errors show d t g,
  unfold act in guarded-errors d (p_action d (pm2_call action) t) _ g,
  bulk-errors d action g,
  unfold start_all in
      ErrorsIn-bind IsPm2Error (list d) (λ procs. start_each d (filter is_down procs)) g
        (list-errors d g) (λ procs. start_each-errors d (filter is_down procs) (list d g).1),
)
