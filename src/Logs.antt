-- ===== src/Logs.antt =====
-- Log streaming: src/controllers/logs.controller.ts. A file is its bytes; cutting them into lines
-- before they are decoded as UTF-8 gives the same lines, since no other byte decodes to a line end.
pub mod Tail
pub mod Live
use pm2manager.Common.{
  ℕ, ◌-◌, String, Bool, true, false, not, ◌&&◌, ◌||◌, Option, none, some, List, [], ◌∷◌, ◌++◌, map,
  filter, drop, length, ltb, leb, ◌==◌, str_eq, if◌then◌else◌,
}
use pm2manager.Common.Int.{ℤ, eq_ℤ}
use pm2manager.Errors.{not_found_error}
use pm2manager.Exec.{Exec, pure, throw, ◌>>=◌}
use pm2manager.Pm2.Normalise.{ProcessDetail}
use pm2manager.Pm2.Service.{describe}
use pm2manager.Processes.{Site, Context, on_gateway, process_target, resolve_target, validated}

pub data Channel : Type 0 where
  out err : Channel

pub record LogLine : Type 0 where
  pub channel : Channel
  pub process_name : String
  pub pm_id : ℤ
  pub message : String
  pub timestamp : ℕ

abbrev pub backlog_lines : ℕ
backlog_lines = 100

abbrev pub backlog_tail_bytes : ℕ
backlog_tail_bytes = 131072

-- `c` in front of the first piece.
abbrev pub cons_first : ℕ → List (List ℕ) → List (List ℕ)
cons_first c [] = (c ∷ []) ∷ []
cons_first c (p ∷ ps) = (c ∷ p) ∷ ps

abbrev pub at_newline : List ℕ → Bool
at_newline [] = false
at_newline (c ∷ cs) = c == 10

-- `text.split(/\r?\n/)`
unfoldable pub pieces : List ℕ → List (List ℕ)
pieces [] = [] ∷ []
pieces (c ∷ cs) =
    let rest = pieces cs in
    if c == 10 then [] ∷ rest else if c == 13 && at_newline cs then rest else cons_first c rest

abbrev pub is_full : List ℕ → Bool
is_full l = ltb 0 (length l)

-- The lines that are not empty.
unfoldable pub full_lines : List ℕ → List (List ℕ)
unfolding pieces
full_lines text = filter is_full (pieces text)

-- `lines.slice(-n)`
abbrev pub last {ℓ} : {A : Type ℓ} → ℕ → List A → List A
last n xs = drop (length xs - n) xs

abbrev pub tail_start : List ℕ → ℕ
tail_start bytes = length bytes - backlog_tail_bytes

-- The first line is dropped where the reading began inside the file.
abbrev pub complete_lines : Bool → List (List ℕ) → List (List ℕ)
complete_lines partial lines = if partial then drop 1 lines else lines

unfoldable pub tail_lines : List ℕ → List (List ℕ)
unfolding full_lines
tail_lines bytes =
    last backlog_lines
      (complete_lines (ltb 0 (tail_start bytes)) (full_lines (drop (tail_start bytes) bytes)))

-- A file that cannot be read has no lines.
unfoldable pub read_tail_lines : Option (List ℕ) → List (List ℕ)
unfolding tail_lines
read_tail_lines none = []
read_tail_lines (some bytes) = tail_lines bytes

-- What the stream takes from elsewhere: the files, their decoding, and the time.
pub record Disk : Type 0 where
  pub contents : String → Option (List ℕ)
  pub decoded : List ℕ → String
  pub now : ℕ

abbrev pub line_of : Disk → ProcessDetail → Channel → List ℕ → LogLine
line_of disk proc channel bytes = record {
  channel = channel;
  process_name = proc.summary.name;
  pm_id = proc.summary.pm_id;
  message = disk.decoded bytes;
  timestamp = disk.now;
}

-- A path that is null or empty is skipped.
abbrev pub source_lines : Disk → ProcessDetail → Channel → Option String → List LogLine
source_lines disk proc channel none = []
source_lines disk proc channel (some path) =
    if str_eq path ""
    then []
    else map (line_of disk proc channel) (read_tail_lines (disk.contents path))

unfoldable pub send_backlog : Disk → ProcessDetail → List LogLine
unfolding read_tail_lines
send_backlog disk proc =
    source_lines disk proc out proc.out_log_path ++ source_lines disk proc err proc.error_log_path

-- What is written to the response.
pub data Frame : Type 0 where
  log_event : LogLine → Frame
  ready : Frame
  ping : Frame

-- The stream of one request: whether the backlog has been sent and the listeners set up, whether
-- `onLog` listens to the bus, the heartbeat runs, and `res.end()` was called.
pub record Stream : Type 0 where
  pub live : Bool
  pub listening : Bool
  pub heartbeat : Bool
  pub ended : Bool
  pub written : List Frame

abbrev pub opened : Stream
opened = record { live = false; listening = false; heartbeat = false; ended = false; written = [] }

pub data Event : Type 0 where
  -- the backlog has been read
  resume : List LogLine → Event
  -- a `log` event of the PM2 service
  log : LogLine → Event
  -- the heartbeat's timer
  tick : Event
  -- the `close` event of the request: the client is gone
  close : Event

abbrev pub concerns : ProcessDetail → LogLine → Bool
concerns proc line =
    eq_ℤ line.pm_id proc.summary.pm_id || str_eq line.process_name proc.summary.name

-- `res.writableEnded` is set by `res.end()` alone.
unfoldable pub step : ProcessDetail → Event → Stream → Stream
step proc (resume lines) s =
    if s.live
    then s
    else if s.ended
    then record s { live = true; written = s.written ++ map log_event lines }
    else record s {
      live = true;
      listening = true;
      heartbeat = true;
      written = s.written ++ (map log_event lines ++ ready ∷ []);
    }
step proc (log line) s =
    if s.listening && concerns proc line
    then record s { written = s.written ++ log_event line ∷ [] }
    else s
step proc tick s = if s.heartbeat then record s { written = s.written ++ ping ∷ [] } else s
step proc close s =
    if s.live then record s { listening = false; heartbeat = false; ended = true } else s

unfoldable pub run : ProcessDetail → List Event → Stream → Stream
unfolding step
run proc [] s = s
run proc (e ∷ es) s = run proc es (step proc e s)

-- `stream`, up to the headers: the process, or an error before anything is written.
abbrev pub streamed : Option ProcessDetail → Exec Site ProcessDetail
streamed none = throw (not_found_error "Process not found")
streamed (some proc) = pure proc

unfoldable pub stream_route : Context → List ℕ → Exec Site ProcessDetail
unfolding process_target resolve_target
stream_route ctx id_or_name =
    validated ctx (process_target id_or_name) (λ v. do
      proc ← on_gateway (describe ctx.show ctx.daemon (resolve_target ctx v))
      streamed proc)
