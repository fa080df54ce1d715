-- ===== src/Pm2/Bus/Attached.antt =====
-- One launch at a time (`attachBus` of src/services/pm2.service.ts).
use pm2manager.Common.{
  ℕ, ◌≡◌, refl, inl, inr, String, Bool, true, false, Option, none, some, is_some, List, [], ◌∷◌,
  Bool-cases, if◌then◌else◌,
}
use pm2manager.Exec.{Result, ok}
use pm2manager.Activity.{ActivityLog}
use pm2manager.Pm2.Connection.{Attempt, Connection, get_elem?, begun, settle, disconnect}
use pm2manager.Pm2.Connection.{step as connection_step}
use pm2manager.Pm2.Connection.Single.{IsSingle, settle-IsSingle, call-IsSingle, step-IsSingle}
use pm2manager.Pm2.Bus.{
  Hub, Event, attach, launched, log_packet, process_packet, closed, failed, listen, disconnected,
  not_launched, answered, step, run,
}

-- A bus is attached as a connection is made: the launches are the attempts.
abbrev pub as_connection : Hub → Connection
as_connection h = record { connected = h.bus; connecting = h.initializing; attempts = h.launches }

-- Nothing launched yet.
abbrev pub detached : ActivityLog → Hub
detached log = record {
  bus = false;
  initializing = none;
  launches = [];
  listening = false;
  lines = [];
  log = log;
}

attach_lem :
    (h : Hub)
    → as_connection (step attach h) ≡ (
        if h.bus
        then as_connection h
        else if is_some h.initializing
        then as_connection h
        else begun (as_connection h))
unfolding step
attach_lem h = elim (Bool-cases h.bus) [
  | inl b ↦ rw b refl
  | inr b ↦ elim (Bool-cases (is_some h.initializing)) [
    | inl i ↦ rw (b, i) refl
    | inr i ↦ rw (b, i) refl
  ]
]

launched-IsSingle :
    (i : ℕ) (m : Option String) (h : Hub) (o : Option Attempt)
    → IsSingle (as_connection h)
    → ((r : Result (Unit {0})) (c : Bool) → IsSingle (settle i r c o (as_connection h)))
    → IsSingle (as_connection (answered i m o h))
launched-IsSingle i none h (some none) s k = k (ok tt) true
launched-IsSingle i (some e) h (some none) s k = k (not_launched e) h.bus
launched-IsSingle i none h none s k = s
launched-IsSingle i (some e) h none s k = s
launched-IsSingle i none h (some (some r)) s k = s
launched-IsSingle i (some e) h (some (some r)) s k = s

step_attaches :
    (e : Event) (h : Hub) → IsSingle (as_connection h) → IsSingle (as_connection (step e h))
unfolding step connection_step
step_attaches attach h s =
    rw (attach_lem h) (call-IsSingle (as_connection h) s h.bus refl h.initializing refl)
step_attaches (launched i m) h s =
    launched-IsSingle i m h (get_elem? h.launches i) s
      (λ r c. settle-IsSingle i r c (as_connection h) s)
step_attaches (log_packet now c p) h s = s
step_attaches (process_packet refused now p) h s = elim (Bool-cases h.listening) [
  | inl l ↦ rw l s
  | inr l ↦ rw l s
]
step_attaches closed h s = step-IsSingle disconnect (as_connection h) s
step_attaches failed h s = step-IsSingle disconnect (as_connection h) s
step_attaches listen h s = s
step_attaches (disconnected true) h s = step-IsSingle disconnect (as_connection h) s
step_attaches (disconnected false) h s = s

run_attaches :
    (es : List Event) (h : Hub) → IsSingle (as_connection h) → IsSingle (as_connection (run es h))
unfolding run
run_attaches [] h s = s
run_attaches (e ∷ es) h s = run_attaches es (step e h) (step_attaches e h s)

-- However calls, answers, packets and lost buses come: at most one launch of the bus is under way, it is
-- the one that `busInitializing` holds, and no bus is attached meanwhile.
pub run-Attached :
    (es : List Event) (log : ActivityLog) → IsSingle (as_connection (run es (detached log)))
run-Attached es log =
    run_attaches es (detached log)
      (record { current = λ i h. cc; pending = λ i h. cc; apart = λ i h. refl })
