-- ===== src/Tests/Connection.antt =====
-- Connecting to the daemon, event by event.
use pm2manager.Common.{◌≡◌, refl, false, none, some, List, [], ◌∷◌, ◌++◌, arith}
use pm2manager.Exec.{Result}
use pm2manager.Pm2.Connection.{
  get_elem?, Connection, Event, unconnected, call, timeout, answer, timed_out, run,
}
use pm2manager.Pm2.Connection.Single.{IsSingle, run-IsSingle}
use pm2manager.Pm2.Connection.Settled.{attempt_settles}

run-IsSingle_example : IsSingle (run (call ∷ timeout 0 ∷ call ∷ answer 0 none ∷ []) unconnected)
run-IsSingle_example = run-IsSingle (call ∷ timeout 0 ∷ call ∷ answer 0 none ∷ [])

abbrev calling : Connection
calling = record { connected = false; connecting = some 0; attempts = none ∷ [] }

-- A late answer to an attempt that has timed out is not taken for a connection.
late :
    run (call ∷ call ∷ timeout 0 ∷ answer 0 none ∷ []) unconnected
    ≡ record { connected = false; connecting = none; attempts = some timed_out ∷ [] }
unfolding run
late = refl

attempt_settles_example :
    (r : Result (Unit {0})) × ((later : List Event)
      → get_elem?
          (run later (run ((call ∷ []) ++ timeout 0 ∷ answer 0 none ∷ []) calling)).attempts
          0
        ≡ some (some r))
attempt_settles_example = attempt_settles 0 (call ∷ []) (answer 0 none ∷ []) calling (omega arith)
