-- ===== src/Pm2/Bus/Audited.antt =====
-- What the audit log says of PM2's events (src/services/pm2.service.ts, src/index.ts).
use pm2manager.Common.{ℕ, ◌≡◌, true, not, ◌&&◌, List, [], ◌∷◌, ◌++◌, map, if◌then◌else◌}
use pm2manager.Activity.{ActivityInput, ActivityRecord}
use pm2manager.Pm2.Bus.{Hub, Event, process_packet, process_event_of, is_recorded, event_input}

-- A row without its id: when it was written and what it says.
abbrev pub Entry : Type 0
Entry = ℕ × ActivityInput

abbrev pub entry_of : ActivityRecord → Entry
entry_of r = (
  r.created_at,
  record {
    type = r.type;
    message = r.message;
    username = r.username;
    ip_address = r.ip_address;
    metadata = r.metadata;
  },
)

-- What each event is to leave in the log.
abbrev pub entries : List Event → List Entry
entries [] = []
entries (process_packet refused now p ∷ es) =
    let rest = entries es in
    if is_recorded (process_event_of p) && not refused
    then (now, event_input (process_event_of p)) ∷ rest
    else rest
entries (_ ∷ es) = entries es

-- The hub `h'` still listens, and its log has gained what `e` leaves.
abbrev Leaves : Event → Hub → Hub → Type 0
Leaves e h h' =
    (h'.listening ≡ true) × (map entry_of h'.log.rows ≡ map entry_of h.log.rows ++ entries (e ∷ []))
