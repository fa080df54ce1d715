-- ===== src/Logs/Live.antt =====
-- What a client gets of the stream, and what is left when it goes
-- (`stream`, src/controllers/logs.controller.ts).
use mathlib.Core.List.{append_assoc, append-nil}
use pm2manager.Common.{
  ◌≡◌, refl, sym, ap, ◌∙◌, Bool, true, false, List, [], ◌∷◌, ◌++◌, map, All, if◌then◌else◌,
  Bool-cases, inl, inr,
}
use pm2manager.Pm2.Normalise.{ProcessDetail}
use pm2manager.Logs.{
  LogLine, Frame, log_event, ready, ping, Stream, opened, Event, resume, log, tick, close, concerns,
  step, run,
}

-- A `log` event of the service, or the heartbeat.
abbrev pub IsTraffic : Event → Type 0
IsTraffic (log line) = Unit
IsTraffic tick = Unit
IsTraffic _ = ⊥

-- What the client is to get: the lines of its process, and the pings, in order.
abbrev pub frames : ProcessDetail → List Event → List Frame
frames proc [] = []
frames proc (log line ∷ es) =
    let rest = frames proc es in if concerns proc line then log_event line ∷ rest else rest
frames proc (tick ∷ es) = ping ∷ frames proc es
frames proc (_ ∷ es) = frames proc es

-- A stream whose listeners are set up, or not.
abbrev streaming : Bool → Bool → List Frame → Stream
streaming b ended written = record {
  live = true;
  listening = b;
  heartbeat = b;
  ended = ended;
  written = written;
}

run-append :
    (proc : ProcessDetail) (es fs : List Event) (s : Stream)
    → run proc (es ++ fs) s ≡ run proc fs (run proc es s)
unfolding run
run-append proc [] fs s = refl
run-append proc (e ∷ es) fs s = run-append proc es fs (step proc e s)

run-streaming :
    (proc : ProcessDetail) (es : List Event) (ended : Bool) (written : List Frame)
    → All IsTraffic es
    → run proc es (streaming true ended written) ≡ streaming true ended (written ++ frames proc es)
unfolding run
run-streaming proc [] ended written h = ap (streaming true ended) (sym (append-nil written))
run-streaming proc (log line ∷ es) ended written (h, hs) = elim (Bool-cases (concerns proc line)) [
  | inl e ↦ rw e (
      run-streaming proc es ended (written ++ log_event line ∷ []) hs
      ∙ ap (streaming true ended) (append_assoc written (log_event line ∷ []) (frames proc es)))
  | inr e ↦ rw e (run-streaming proc es ended written hs)
]
run-streaming proc (tick ∷ es) ended written (h, hs) =
    run-streaming proc es ended (written ++ ping ∷ []) hs
    ∙ ap (streaming true ended) (append_assoc written (ping ∷ []) (frames proc es))
run-streaming proc (resume lines ∷ es) ended written (h, hs) = absurd h
run-streaming proc (close ∷ es) ended written (h, hs) = absurd h

run-stopped :
    (proc : ProcessDetail) (es : List Event) (written : List Frame)
    → All IsTraffic es
    → run proc es (streaming false true written) ≡ streaming false true written
unfolding run
run-stopped proc [] written h = refl
run-stopped proc (log line ∷ es) written (h, hs) = run-stopped proc es written hs
run-stopped proc (tick ∷ es) written (h, hs) = run-stopped proc es written hs
run-stopped proc (resume lines ∷ es) written (h, hs) = absurd h
run-stopped proc (close ∷ es) written (h, hs) = absurd h

-- What a client gets that stays until the backlog has been read: the backlog, the mark that it is
-- over, and then each line of its process and each ping until it goes, in order and nothing else; and
-- when it has gone the listener and the heartbeat are gone too, and nothing more is written.
pub run_delivers :
    (proc : ProcessDetail) (lines : List LogLine) (before after : List Event)
    → All IsTraffic before
    → All IsTraffic after
    → run proc (resume lines ∷ (before ++ close ∷ after)) opened ≡ record {
      live = true;
      listening = false;
      heartbeat = false;
      ended = true;
      written = (map log_event lines ++ ready ∷ []) ++ frames proc before;
    }
unfolding run
run_delivers proc lines before after h k =
    let start = streaming true false (map log_event lines ++ ready ∷ []) in
    run-append proc before (close ∷ after) start
    ∙ ap (run proc (close ∷ after))
        (run-streaming proc before false (map log_event lines ++ ready ∷ []) h)
    ∙ run-stopped proc after ((map log_event lines ++ ready ∷ []) ++ frames proc before) k

-- A client that goes while the backlog is read is not noticed, since `res.writableEnded` is set by
-- `res.end()` only: the listener and the heartbeat are set up after it has gone, and whatever comes
-- then they stay and write each line and ping.
pub closed_early_leaks :
    (proc : ProcessDetail) (lines : List LogLine) (after : List Event)
    → All IsTraffic after
    → run proc (close ∷ resume lines ∷ after) opened ≡ record {
      live = true;
      listening = true;
      heartbeat = true;
      ended = false;
      written = (map log_event lines ++ ready ∷ []) ++ frames proc after;
    }
unfolding run
closed_early_leaks proc lines after h =
    run-streaming proc after false (map log_event lines ++ ready ∷ []) h
