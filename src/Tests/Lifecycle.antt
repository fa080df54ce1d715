-- ===== src/Tests/Lifecycle.antt =====
-- The life of the process.
use pm2manager.Common.{◌≡◌, refl, true, false, none, some, [], ◌∷◌}
use pm2manager.Lifecycle.{Process, uncaught_exception, signal, drained, forced, run}
use pm2manager.Tests.Settings.{running}
use pm2manager.Tests.Processes.{idle}

abbrev starting : Process
starting = record {
  server_ready = false;
  shutting_down = false;
  store = running;
  gateway = record idle { connected = true; bus = true };
  closing = false;
  force_timer = false;
  database = true;
  exited = none;
}

abbrev serving : Process
serving = record starting { server_ready = true }

-- Before the server listens, an uncaught error ends the process with the database open.
fatal_early : (run (uncaught_exception ∷ []) starting).exited ≡ some 1
unfolding run
fatal_early = refl

-- Where `pm2.disconnect` throws, the process stays, and no later signal ends it.
stays_on_throw :
    (run (signal true true ∷ signal true false ∷ drained ∷ forced ∷ []) serving).exited ≡ none
unfolding run
stays_on_throw = refl
