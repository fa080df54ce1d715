-- ===== src/Tests/Page.antt =====
-- The views of the page.
use pm2manager.Common.{
  ◌≡◌, refl, arith, true, false, none, some, is_some, List, [], ◌∷◌, ◌++◌, map, length,
}
use pm2manager.Logs.{last}
use pm2manager.Page.Logs
use pm2manager.Page.Logs.{
  PageLine, Panel, own_line, node_of, is_logs, asked_for, shown, arrived, started, line_of, run,
}
use pm2manager.Page.Logs.Window.{append_all, append_all-last}
use pm2manager.Page.Logs.Streams.{late_answer_streams}
use pm2manager.Common.{Apart}
use pm2manager.Activity.{ActivityInput, ActivityLog, logout, process_stop, newer, count, appended}
use pm2manager.Activity.Paging.{whole}
use pm2manager.Page.Activity.{read_on}
use pm2manager.Page.Activity.Reading.{items_of, pages_of, Labelled, read_on_complete}

abbrev fresh : Panel
fresh = record {
  view = Logs.dashboard;
  options = [];
  selected = "";
  nodes = [];
  log_lines = 0;
  log_stream = none;
  open_streams = [];
  opened = 0;
  start_disabled = false;
  stop_disabled = true;
  asked = [];
}

abbrev hello : PageLine
hello = record { channel = Logs.out; message = some "hello"; timestamp = some 5 }

append_all-last_example :
    ((append_all (hello ∷ hello ∷ []) fresh).nodes
      ≡ last 1000 ([] ++ map node_of (hello ∷ hello ∷ [])))
    × ((append_all (hello ∷ hello ∷ []) fresh).log_lines
        ≡ length (append_all (hello ∷ hello ∷ []) fresh).nodes)
append_all-last_example =
    append_all-last (hello ∷ hello ∷ []) fresh (record { counted = refl; bounded = omega arith })

-- The logs of process 3 are watched, and then those of process 4.
abbrev watching : List Logs.Event
watching =
    asked_for "3"
    ∷ arrived 0 ("3" ∷ "4" ∷ [])
    ∷ line_of 0 hello
    ∷ asked_for "4"
    ∷ arrived 0 ("3" ∷ "4" ∷ [])
    ∷ line_of 0 hello
    ∷ []

second_stream : (run (λ id. id) watching fresh).open_streams ≡ 1 ∷ []
unfolding run Logs.step
second_stream = refl

late_answer_streams_example :
    (is_some
        (run
          (λ id. id)
          (asked_for "3"
            ∷ shown Logs.activity
            ∷ arrived 0 ("3" ∷ [])
            ∷ map shown (Logs.settings ∷ []))
          fresh).log_stream
      ≡ true)
    × (is_logs
          (run
            (λ id. id)
            (asked_for "3"
              ∷ shown Logs.activity
              ∷ arrived 0 ("3" ∷ [])
              ∷ map shown (Logs.settings ∷ []))
            fresh).view
        ≡ false)
late_answer_streams_example =
    late_answer_streams (λ id. id) "3" ("3" ∷ []) refl refl Logs.activity (Logs.settings ∷ []) fresh
      refl (refl, (refl, tt))

abbrev entry : ActivityInput
entry = record {
  type = logout;
  message = "bye";
  username = none;
  ip_address = none;
  metadata = none;
}

abbrev activity : ActivityLog
activity =
    appended 90 (record entry { type = process_stop })
      (appended 50 entry (appended 10 entry (record { rows = []; last_id = 0 })))

two_logouts : count (some logout) activity ≡ 2
unfolding count
two_logouts = refl

read_on_complete_example :
    let vs = read_on 1 (record { activity_offset = 0; activity_type = some logout }) activity in
    (items_of vs ≡ whole 25 (some logout) activity)
    × Apart (λ a b. newer a b ≡ true) (items_of vs)
    × (length (items_of vs) ≡ count (some logout) activity)
    × (length vs ≡ pages_of (count (some logout) activity))
    × Labelled 1 (pages_of (count (some logout) activity)) vs
read_on_complete_example =
    read_on_complete 1 (some logout) activity (omega arith) (omega (arith, two_logouts))
