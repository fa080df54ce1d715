-- ===== src/Page/Logs.antt =====
-- The log view of the page (public/static/js/app.js): the lines that it shows, its stream, and the
-- list of processes that it is chosen from. An `EventSource` calls nothing back once it is closed. How a
-- time is written is left out.
pub mod Window
pub mod Streams
use pm2manager.Common.{
  ℕ, zero, suc, ◌+◌, ◌-◌, String, Bool, true, false, not, ◌&&◌, Option, none, some, List, [], ◌∷◌,
  ◌++◌, any, filter, length, ltb, ◌==◌, str_eq, template, or_else, if◌then◌else◌,
}

pub data View : Type 0 where
  dashboard processes metrics logs activity settings : View

abbrev pub is_logs : View → Bool
is_logs logs = true
is_logs _ = false

-- `line.channel`: `sys` is the page's own.
pub data PageChannel : Type 0 where
  out err sys : PageChannel

pub record PageLine : Type 0 where
  pub channel : PageChannel
  pub message : Option String
  pub timestamp : Option ℕ

-- A child of `log-output`; a time of 0 is not shown.
pub record LogNode : Type 0 where
  pub class : String
  pub time : Option ℕ
  pub text : String

abbrev pub class_of : PageChannel → String
class_of out = "log-line"
class_of err = "log-line err"
class_of sys = "log-line sys"

abbrev pub time_of : Option ℕ → Option ℕ
time_of none = none
time_of (some t) = if t == 0 then none else some t

abbrev pub node_of : PageLine → LogNode
node_of line = record {
  class = class_of line.channel;
  time = time_of line.timestamp;
  text = template (or_else line.message "") "\n" "";
}

-- The page: the view shown, the select with its options, the children of `log-output` and `logLines`,
-- `logStream`, the streams that are open, how many were opened, the buttons, and the processes whose
-- logs were asked for while the list of processes is on its way.
pub record Panel : Type 0 where
  pub view : View
  pub options : List String
  pub selected : String
  pub nodes : List LogNode
  pub log_lines : ℕ
  pub log_stream : Option ℕ
  pub open_streams : List ℕ
  pub opened : ℕ
  pub start_disabled : Bool
  pub stop_disabled : Bool
  pub asked : List String

abbrev pub line_limit : ℕ
line_limit = 1000

-- `while (out.childNodes.length > 1000) { ... }`
unfoldable pub trimmed : List LogNode → ℕ → List LogNode × ℕ
trimmed [] k = ([], k)
trimmed (n ∷ ns) k =
    let rest = trimmed ns (k - 1) in if ltb line_limit (length (n ∷ ns)) then rest else (n ∷ ns, k)

unfoldable pub append_log : PageLine → Panel → Panel
unfolding trimmed
append_log line p =
    let (nodes, lines) = trimmed (p.nodes ++ node_of line ∷ []) (p.log_lines + 1) in
    record p { nodes = nodes; log_lines = lines }

unfoldable pub clear_logs : Panel → Panel
clear_logs p = record p { nodes = []; log_lines = 0 }

-- `logStream.close()`
abbrev pub close : Option ℕ → List ℕ → List ℕ
close none streams = streams
close (some i) streams = filter (λ j. not (j == i)) streams

unfoldable pub stop_logs : Panel → Panel
stop_logs p = record p {
  log_stream = none;
  open_streams = close p.log_stream p.open_streams;
  start_disabled = false;
  stop_disabled = true;
}

abbrev pub own_line : PageChannel → String → PageLine
own_line channel message = record { channel = channel; message = some message; timestamp = none }

-- `api.streamLogs`, and the buttons.
abbrev pub streaming : Panel → Panel
streaming p = record p {
  log_stream = some p.opened;
  open_streams = p.opened ∷ p.open_streams;
  opened = p.opened + 1;
  start_disabled = true;
  stop_disabled = false;
}

-- Nothing is started where nothing is selected. The label of the option is its text, by `label`.
unfoldable pub start_logs : (String → String) → Panel → Panel
unfolding stop_logs append_log
start_logs label p =
    if str_eq p.selected ""
    then p
    else streaming
        (append_log (own_line sys (template "— streaming " (label p.selected) " —")) (stop_logs p))

-- `showView`, as far as the logs go.
unfoldable pub show_view : View → Panel → Panel
unfolding stop_logs
show_view v p =
    if is_logs p.view && not (is_logs v)
    then record (stop_logs p) { view = v }
    else record p { view = v }

-- `sel.value = v`: a value that is no option selects nothing.
abbrev pub choose : List String → String → String
choose options v = if any (λ o. str_eq o v) options then v else ""

-- The answer of `loadLogs`, with the processes by their ids.
unfoldable pub list_processes : List String → Panel → Panel
list_processes [] p = record p { options = "" ∷ []; selected = "" }
list_processes (i ∷ is) p = record p {
  options = i ∷ is;
  selected = if str_eq p.selected "" then i else choose (i ∷ is) p.selected;
}

-- `openLogsFor`, up to the request.
unfoldable pub open_logs_for : String → Panel → Panel
unfolding show_view
open_logs_for id p = let shown = show_view logs p in record shown { asked = shown.asked ++ id ∷ [] }

-- What follows the answer in `openLogsFor`.
unfoldable pub open_selected : (String → String) → String → Panel → Panel
unfolding start_logs
open_selected label id p =
    let chosen = record p { selected = choose p.options id } in
    if str_eq chosen.selected id then start_logs label chosen else chosen

-- The request at a place of those that are on their way, and the others.
abbrev pub take_at : ℕ → List String → Option (String × List String)
take_at k [] = none
take_at zero (x ∷ xs) = some (x, xs)
take_at (suc k) (x ∷ xs) =
    let rest = take_at k xs in elim rest [ none ↦ none | some (y, ys) ↦ some (y, x ∷ ys) ]

abbrev pub answered :
    (String → String) → List String → Option (String × List String) → Panel → Panel
answered label ids none p = p
answered label ids (some (id, rest)) p =
    open_selected label id (list_processes ids (record p { asked = rest }))

pub data Event : Type 0 where
  shown : View → Event
  asked_for : String → Event
  -- the answer to one of the requests of `openLogsFor`, and to one that `loadView` made
  arrived : ℕ → List String → Event
  refreshed : List String → Event
  started stopped cleared : Event
  -- the callbacks of stream `i`
  line_of : ℕ → PageLine → Event
  failed : ℕ → Event

abbrev pub is_open : ℕ → Panel → Bool
is_open i p = any (λ j. j == i) p.open_streams

unfoldable pub step : (String → String) → Event → Panel → Panel
unfolding show_view open_logs_for list_processes open_selected start_logs stop_logs clear_logs
    append_log
step label (shown v) p = show_view v p
step label (asked_for id) p = open_logs_for id p
step label (arrived k ids) p = answered label ids (take_at k p.asked) p
step label (refreshed ids) p = list_processes ids p
step label started p = start_logs label p
step label stopped p = stop_logs p
step label cleared p = clear_logs p
step label (line_of i line) p = if is_open i p then append_log line p else p
step label (failed i) p =
    if is_open i p then append_log (own_line err "— stream disconnected —") p else p

unfoldable pub run : (String → String) → List Event → Panel → Panel
run label [] p = p
run label (e ∷ es) p = run label es (step label e p)
