-- ===== src/Pm2/Connection/Sequential.antt =====
-- `connect` where nothing comes in between (src/services/pm2.service.ts).
use pm2manager.Common.{ℕ, Bool, none, some, List}
use pm2manager.Pm2.Service.{Answer, reached, refused, silent}
use pm2manager.Pm2.Connection.{Attempt, Connection, Event, timeout, answer}

-- What the daemon does to attempt `i`, for each way in which it answers a connection.
abbrev pub reply : ℕ → Answer → Event
reply i reached = answer i none
reply i (refused message) = answer i (some message)
reply i silent = timeout i

-- No attempt under way.
abbrev pub at_rest : Bool → List Attempt → Connection
at_rest connected attempts = record {
  connected = connected;
  connecting = none;
  attempts = attempts;
}
