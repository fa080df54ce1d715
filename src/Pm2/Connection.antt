-- ===== src/Pm2/Connection.antt =====
-- Connecting to the daemon while other calls, a timeout and late answers come in between: `connect`
-- and `disconnect` of src/services/pm2.service.ts, event by event. An attempt is a promise of its
-- own, with its `settled` flag; `connecting` holds the attempt that `this.connecting` is.
pub mod Entries
pub mod Single
pub mod Settled
pub mod Sequential
use pm2manager.Common.{
  ℕ, zero, suc, ◌+◌, String, Bool, true, false, Option, none, some, is_some, List, [], ◌∷◌, ◌++◌,
  length, if◌then◌else◌,
}
use pm2manager.Errors.{app, pm2_error}
use pm2manager.Exec.{Result, ok, err}

module _ {ℓ} {A : Type ℓ} where
  abbrev pub get_elem? : List A → ℕ → Option A
  get_elem? [] i = none
  get_elem? (x ∷ xs) zero = some x
  get_elem? (x ∷ xs) (suc i) = get_elem? xs i

  abbrev pub set : List A → ℕ → A → List A
  set [] i v = []
  set (x ∷ xs) zero v = v ∷ xs
  set (x ∷ xs) (suc i) v = x ∷ set xs i v

-- What an attempt has been settled with, if it has.
abbrev pub Attempt : Type 0
Attempt = Option (Result (Unit {0}))

pub record Connection : Type 0 where
  pub connected : Bool
  pub connecting : Option ℕ
  pub attempts : List Attempt

abbrev pub unconnected : Connection
unconnected = record { connected = false; connecting = none; attempts = [] }

pub data Event : Type 0 where
  -- a call of `connect()`
  call : Event
  -- the timer of an attempt
  timeout : ℕ → Event
  -- the callback of `pm2.connect`, with an error's message or none
  answer : ℕ → Option String → Event
  -- a call of `disconnect()`
  disconnect : Event

-- `if (settled) return; settled = true; ...`: the entry `o` of attempt `i` is settled with `r`.
abbrev pub settle : ℕ → Result (Unit {0}) → Bool → Option Attempt → Connection → Connection
settle i r connected (some none) s = record {
  connected = connected;
  connecting = none;
  attempts = set s.attempts i (some r);
}
settle i r connected _ s = s

abbrev pub timed_out : Result (Unit {0})
timed_out = err (app (pm2_error "Timed out connecting to the PM2 daemon" none))

abbrev pub not_reached : String → Result (Unit {0})
not_reached message = err (app (pm2_error "Could not connect to the PM2 daemon" (some message)))

abbrev pub begun : Connection → Connection
begun s = record s { connecting = some (length s.attempts); attempts = s.attempts ++ none ∷ [] }

-- A call joins the connection, or the attempt that is under way, or begins one.
unfoldable pub step : Event → Connection → Connection
step call s = if s.connected then s else if is_some s.connecting then s else begun s
step (timeout i) s = settle i timed_out s.connected (get_elem? s.attempts i) s
step (answer i (some message)) s =
    settle i (not_reached message) s.connected (get_elem? s.attempts i) s
step (answer i none) s = settle i (ok tt) true (get_elem? s.attempts i) s
step disconnect s = record s { connected = false }

unfoldable pub run : List Event → Connection → Connection
unfolding step
run [] s = s
run (e ∷ es) s = run es (step e s)
