-- ===== src/Pm2/Bus.antt =====
-- The event bus of PM2 (`attachBus` of src/services/pm2.service.ts) and the listener that records its
-- process events (src/index.ts), call by call. What pm2 documents is in the model: the callback of a
-- launch is called once. Who listens to the lines is the concern of Logs.
pub mod Attached
pub mod Audited
use pm2manager.Common.{
  ℕ, String, Bool, true, false, Option, none, some, is_some, List, [], ◌∷◌, ◌++◌, any, length,
  str_eq, template, or_else, if◌then◌else◌,
}
use pm2manager.Common.Int.{ℤ, pos, negsuc}
use pm2manager.Errors.{app, pm2_error}
use pm2manager.Exec.{Result, ok, err}
use pm2manager.Activity.{
  ActivityInput, ActivityLog, MetaValue, text, number, negative, process_event, record_activity,
}
use pm2manager.Logs.{Channel, LogLine}
use pm2manager.Pm2.Normalise.{id_or_minus_one}
use pm2manager.Pm2.Connection.{Attempt, get_elem?, set}

-- `packet.process`, of which each part may be missing.
pub record PacketProcess : Type 0 where
  pub name : Option String
  pub pm_id : Option ℕ

-- `packet.data`: missing, a text, or another value, by its `String()`.
pub data PacketData : Type 0 where
  missing : PacketData
  a_string other_value : String → PacketData

pub record LogPacket : Type 0 where
  pub process : Option PacketProcess
  pub data_of : PacketData
  pub at : Option ℕ

pub record ProcessPacket : Type 0 where
  pub event : Option String
  pub process : Option PacketProcess

-- `Pm2ProcessEvent`.
pub record ProcessEvent : Type 0 where
  pub event : String
  pub name : String
  pub pm_id : ℤ

abbrev pub name_in : Option PacketProcess → String
name_in none = "unknown"
name_in (some p) = or_else p.name "unknown"

abbrev pub id_in : Option PacketProcess → ℤ
id_in none = negsuc 0
id_in (some p) = id_or_minus_one p.pm_id

abbrev pub message_in : PacketData → String
message_in missing = ""
message_in (a_string s) = s
message_in (other_value s) = s

abbrev pub log_line : ℕ → Channel → LogPacket → LogLine
log_line now channel p = record {
  channel = channel;
  process_name = name_in p.process;
  pm_id = id_in p.process;
  message = message_in p.data_of;
  timestamp = or_else p.at now;
}

abbrev pub process_event_of : ProcessPacket → ProcessEvent
process_event_of p = record {
  event = or_else p.event "unknown";
  name = name_in p.process;
  pm_id = id_in p.process;
}

abbrev pub recorded_pm2_events : List String
recorded_pm2_events = "restart" ∷ "restart overlimit" ∷ "exit" ∷ "stop" ∷ "online" ∷ "delete" ∷ []

abbrev pub is_recorded : ProcessEvent → Bool
is_recorded e = any (λ name. str_eq name e.event) recorded_pm2_events

abbrev pub meta_of : ℤ → MetaValue
meta_of (pos n) = number n
meta_of (negsuc n) = negative n

abbrev pub event_input : ProcessEvent → ActivityInput
event_input e = record {
  type = process_event;
  message = template (template "Process \"" e.name "\" event: ") e.event "";
  username = none;
  ip_address = none;
  metadata = some (("pmId", meta_of e.pm_id) ∷ ("event", text e.event) ∷ []);
}

-- The listener of src/index.ts.
unfoldable pub on_process : Bool → ℕ → ProcessEvent → ActivityLog → ActivityLog
unfolding record_activity
on_process refused now e log =
    if is_recorded e then (record_activity refused now (event_input e) log).1 else log

-- `this.bus` by whether it is there, `this.busInitializing` by the launch that it waits for, the
-- launches with what they were settled with, whether src/index.ts listens, the lines emitted and the
-- audit log.
pub record Hub : Type 0 where
  pub bus : Bool
  pub initializing : Option ℕ
  pub launches : List Attempt
  pub listening : Bool
  pub lines : List LogLine
  pub log : ActivityLog

pub data Event : Type 0 where
  -- a call of `attachBus()`
  attach : Event
  -- the callback of launch `i`, with the message of its error if it has one
  launched : ℕ → Option String → Event
  -- the callbacks of a bus
  log_packet : (now : ℕ) → Channel → LogPacket → Event
  process_packet : (refused : Bool) (now : ℕ) → ProcessPacket → Event
  closed failed : Event
  -- `pm2Service.events.on('process', ...)`
  listen : Event
  -- `disconnect()`, of a bus that has a `close` or has none
  disconnected : (closable : Bool) → Event

abbrev pub not_launched : String → Result (Unit {0})
not_launched message = err (app (pm2_error "Failed to launch PM2 event bus" (some message)))

abbrev pub answered : ℕ → Option String → Option Attempt → Hub → Hub
answered i none (some none) h = record h {
  bus = true;
  initializing = none;
  launches = set h.launches i (some (ok tt));
}
answered i (some message) (some none) h = record h {
  initializing = none;
  launches = set h.launches i (some (not_launched message));
}
answered i e _ h = h

abbrev pub relaunched : Hub → Hub
relaunched h = record h {
  initializing = some (length h.launches);
  launches = h.launches ++ none ∷ [];
}

unfoldable pub step : Event → Hub → Hub
unfolding on_process
step attach h = if h.bus then h else if is_some h.initializing then h else relaunched h
step (launched i e) h = answered i e (get_elem? h.launches i) h
step (log_packet now channel p) h = record h { lines = h.lines ++ log_line now channel p ∷ [] }
step (process_packet refused now p) h =
    if h.listening then record h { log = on_process refused now (process_event_of p) h.log } else h
step closed h = record h { bus = false }
step failed h = record h { bus = false }
step listen h = record h { listening = true }
step (disconnected closable) h = if closable then record h { bus = false } else h

unfoldable pub run : List Event → Hub → Hub
unfolding step
run [] h = h
run (e ∷ es) h = run es (step e h)
