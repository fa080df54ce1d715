-- ===== src/Tests/Processes.antt =====
-- The PM2 service and the routes of the processes.
use pm2manager.Common.{
  ◌≡◌, refl, String, false, none, some, List, [], ◌∷◌, ◌++◌, map, filter, codes,
}
use pm2manager.Common.Int.{pos}
use pm2manager.Common.Sort.{sort, insert}
use pm2manager.Exec.{ok}
use pm2manager.Pm2.Normalise.{ProcessDescription, ProcessSummary, text, to_process_summary}
use pm2manager.Pm2.Service.{
  Daemon, Gateway, Target, pm_id, name, reached, restart, delete, list, start_all, ensure_connected,
  guarded, is_down,
}
use pm2manager.Pm2.Calls.{start_all_calls}
use pm2manager.Processes.{Site, Context, action_route, remove_route}
use pm2manager.Processes.Outcome.{Outcome}
use pm2manager.Processes.Targets.{Spares, routes-Spares}
use pm2manager.Tests.Data.{env, signed_in}

abbrev web : ProcessDescription
web = record {
  pid = some 12;
  name = some "web";
  pm_id = some 1;
  cpu = some 5;
  memory = some 900;
  pm2_env = some (("status", text "stopped") ∷ []);
}

abbrev worker : ProcessDescription
worker = record web {
  name = some "worker";
  pm_id = some 0;
  pm2_env = some (("status", text "online") ∷ []);
}

-- A daemon that answers, refuses to delete, and has no bus.
abbrev pub daemon : Daemon
daemon = record {
  now = 1000;
  version = some "6.0.0";
  connection = reached;
  bus_error = some "no bus";
  listing = ok (some (web ∷ worker ∷ []));
  description = λ t. ok (some (web ∷ []));
  outcome = λ a t. elim a [ delete ↦ some "process or namespace not found" | _ ↦ none ];
}

abbrev pub idle : Gateway
idle = record { connected = false; bus = false; calls = [] }

abbrev show : Target → String
show (pm_id n) = "7"
show (name v) = "web"

abbrev listed : List ProcessSummary
listed = to_process_summary 1000 worker ∷ to_process_summary 1000 web ∷ []

listed_ok : (list daemon idle).0 ≡ ok listed
unfolding list guarded ensure_connected sort insert to_process_summary
listed_ok = refl

start_all_calls_example :
    (start_all daemon idle).1.calls
    ≡ [] ++ map (λ p. (restart, pm_id p.pm_id)) (filter is_down listed)
start_all_calls_example = start_all_calls daemon idle listed listed_ok

-- Of the two, `web` with the id 1 is down.
started_web : map (λ p. p.pm_id) (filter is_down listed) ≡ pos 1 ∷ []
unfolding to_process_summary
started_web = refl

abbrev ctx : Context
ctx = record { env = env; daemon = daemon; show = show; rounded = λ n. n; flattened = "{}" }

abbrev site : Site
site = record { web = signed_in; gateway = idle }

routes-Spares_example :
    Spares [] (action_route ctx (codes " ALL ") (codes "stop") site).1.gateway.calls
    × Spares [] (remove_route ctx (codes " ALL ") site).1.gateway.calls
routes-Spares_example = routes-Spares ctx (codes " ALL ") (codes "stop") site
