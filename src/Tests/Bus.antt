-- ===== src/Tests/Bus.antt =====
-- The event bus.
use pm2manager.Common.{false, none, some, [], ◌∷◌, List}
use pm2manager.Activity.{ActivityLog}
use pm2manager.Pm2.Connection.Single.{IsSingle}
use pm2manager.Pm2.Bus.{
  Hub, Event, attach, launched, process_packet, failed, listen, ProcessPacket, run,
}
use pm2manager.Pm2.Bus.Attached.{as_connection, detached, run-Attached}

abbrev empty_log : ActivityLog
empty_log = record { rows = []; last_id = 0 }

abbrev restarted : ProcessPacket
restarted = record {
  event = some "restart";
  process = some (record { name = some "web"; pm_id = some 1 });
}

-- The bus is lost, and another is attached.
abbrev hiccup : List Event
hiccup =
    attach
    ∷ launched 0 none
    ∷ process_packet false 7 restarted
    ∷ failed
    ∷ attach
    ∷ launched 1 none
    ∷ process_packet false 9 (record restarted { event = some "start" })
    ∷ []

run-Attached_example : IsSingle (as_connection (run hiccup (detached empty_log)))
run-Attached_example = run-Attached hiccup empty_log

abbrev heard : Hub
heard = run (listen ∷ []) (detached empty_log)
