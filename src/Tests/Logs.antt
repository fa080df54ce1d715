-- ===== src/Tests/Logs.antt =====
-- The backlog and the live stream of a process's logs.
use pm2manager.Common.{arith, ◌≡◌, refl, true, false, none, some, [], ◌∷◌, ◌++◌, map, codes}
use pm2manager.Common.Int.{pos}
use pm2manager.Pm2.Normalise.{ProcessDetail, to_process_detail}
use pm2manager.Logs.{
  LogLine, out, tail_lines, log_event, ready, ping, opened, resume, log, tick, close, run,
}
use pm2manager.Logs.Tail.{Replays, tail_lines-Replays}
use pm2manager.Logs.Live.{frames, run_delivers, closed_early_leaks}

-- An empty line is skipped, and `\r\n` ends a line as `\n` does.
three_lines :
    tail_lines (codes "one\r\n\ntwo\nthree") ≡ codes "one" ∷ codes "two" ∷ codes "three" ∷ []
unfolding tail_lines
three_lines = refl

tail_lines-Replays_example : Replays (codes "one\r\n\ntwo") (tail_lines (codes "one\r\n\ntwo"))
tail_lines-Replays_example = tail_lines-Replays (codes "one\r\n\ntwo")

abbrev web : ProcessDetail
web = to_process_detail 0 (record {
  pid = some 12;
  name = some "web";
  pm_id = some 1;
  cpu = none;
  memory = none;
  pm2_env = none;
})

abbrev line : LogLine
line = record {
  channel = out;
  process_name = "web";
  pm_id = pos 1;
  message = "hello";
  timestamp = 5;
}

abbrev other_line : LogLine
other_line = record line { process_name = "api"; pm_id = pos 2 }

run_delivers_example :
    run web
      (resume (line ∷ []) ∷ ((log other_line ∷ log line ∷ tick ∷ []) ++ close ∷ log line ∷ []))
      opened
    ≡ record {
      live = true;
      listening = false;
      heartbeat = false;
      ended = true;
      written =
          (map log_event (line ∷ []) ++ ready ∷ [])
          ++ frames web (log other_line ∷ log line ∷ tick ∷ []);
    }
run_delivers_example =
    run_delivers web (line ∷ []) (log other_line ∷ log line ∷ tick ∷ []) (log line ∷ [])
      (omega arith) (omega arith)

two_frames : frames web (log other_line ∷ log line ∷ tick ∷ []) ≡ log_event line ∷ ping ∷ []
unfolding to_process_detail
two_frames = refl

closed_early_leaks_example : run web (close ∷ resume [] ∷ log line ∷ tick ∷ []) opened ≡ record {
  live = true;
  listening = true;
  heartbeat = true;
  ended = false;
  written = (map log_event [] ++ ready ∷ []) ++ frames web (log line ∷ tick ∷ []);
}
closed_early_leaks_example = closed_early_leaks web [] (log line ∷ tick ∷ []) (omega arith)
