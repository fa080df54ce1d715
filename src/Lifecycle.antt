-- ===== src/Lifecycle.antt =====
-- The life of the server's process (src/index.ts, `closeDatabase` of src/db/index.ts): the guards against
-- uncaught errors and the graceful shutdown, event by event. Nothing happens after `process.exit`.
pub mod Ending
use pm2manager.Common.{
  ℕ, Bool, true, false, Option, none, some, is_some, List, [], ◌∷◌, if◌then◌else◌,
}
use pm2manager.Settings.{Store, stop}
use pm2manager.Pm2.Service.{Gateway, disconnect}

-- `serverReady`, `shuttingDown`, the timers of the collector and the gateway with what they hold,
-- whether `server.close` was called, the timer that forces the exit, whether the database is open, and
-- the code that the process exited with.
pub record Process : Type 0 where
  pub server_ready : Bool
  pub shutting_down : Bool
  pub store : Store
  pub gateway : Gateway
  pub closing : Bool
  pub force_timer : Bool
  pub database : Bool
  pub exited : Option ℕ

pub data Event : Type 0 where
  -- the callback of `app.listen`
  listening : Event
  unhandled_rejection uncaught_exception : Event
  -- SIGINT or SIGTERM, by whether the bus can be closed, and whether `pm2.disconnect` throws
  signal : (closable throws : Bool) → Event
  -- the callback of `server.close`, when every connection is gone
  drained : Event
  -- ten seconds after the shutdown began
  forced : Event

abbrev pub exit : ℕ → Process → Process
exit code p = record p { exited = some code }

abbrev pub close_database : Process → Process
close_database p = record p { database = false }

abbrev pub uncaught : Process → Process
uncaught p = if p.server_ready then p else exit 1 p

-- Up to the call of `pm2.disconnect`, which is made where there is a connection.
abbrev pub interrupted : Bool → Process → Process
interrupted closable p = record p {
  shutting_down = true;
  store = stop p.store;
  gateway = record (disconnect closable p.gateway) { connected = p.gateway.connected };
}

abbrev pub shutdown : Bool → Process → Process
shutdown closable p = record p {
  shutting_down = true;
  store = stop p.store;
  gateway = disconnect closable p.gateway;
  closing = true;
  force_timer = true;
}

abbrev pub on_event : Event → Process → Process
on_event listening p = record p { server_ready = true }
on_event unhandled_rejection p = p
on_event uncaught_exception p = uncaught p
on_event (signal closable false) p = if p.shutting_down then p else shutdown closable p
on_event (signal closable true) p =
    if p.shutting_down
    then p
    else if p.gateway.connected
    then uncaught (interrupted closable p)
    else shutdown closable p
on_event drained p = if p.closing then exit 0 (close_database p) else p
on_event forced p = if p.force_timer then exit 1 (close_database p) else p

unfoldable pub step : Event → Process → Process
step e p = if is_some p.exited then p else on_event e p

unfoldable pub run : List Event → Process → Process
unfolding step
run [] p = p
run (e ∷ es) p = run es (step e p)
