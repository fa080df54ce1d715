-- ===== src/Lifecycle/Ending.antt =====
-- How the process ends (src/index.ts).
use pm2manager.Common.{ℕ, ◌≡◌, true, false, none, some, List, [], ◌∷◌}
use pm2manager.Lifecycle.{Process, Event, drained, forced}

-- What has stopped where a shutdown goes on: the collector, the gateway, and new connections.
pub record IsStopping (p : Process) : Type 0 where
  pub ready : p.server_ready ≡ true
  pub once : p.shutting_down ≡ true
  pub collector : p.store.collect_timer ≡ none
  pub retention : p.store.retention_timer ≡ none
  pub gateway : p.gateway.connected ≡ false
  pub closing : p.closing ≡ true
  pub timer : p.force_timer ≡ true

-- The process has ended with that code, and the database is closed.
pub record IsEnded (code : ℕ) (p : Process) : Type 0 where
  pub exited : p.exited ≡ some code
  pub closed : p.database ≡ false
  pub stopping : IsStopping p

-- The code after those events and the timer: 0 where the connections drained in time.
abbrev pub code_of : List Event → ℕ
code_of [] = 1
code_of (drained ∷ es) = 0
code_of (forced ∷ es) = 1
code_of (_ ∷ es) = code_of es
