-- ===== src/Pm2/Calls.antt =====
-- Which calls the PM2 service makes (src/services/pm2.service.ts).
use mathlib.Core.Path.{subst}
use mathlib.Core.List.{append_assoc, append-nil, Perm}
use pm2manager.Common.{
  ℕ, ◌≡◌, refl, sym, ap, ◌∙◌, ◌↔◌, String, Bool, true, false, Option, none, some, List, [], ◌∷◌,
  ◌++◌, map, filter, Apart, or_else, template, if◌then◌else◌,
}
use pm2manager.Common.Sort.{sort, sort-perm, sort-Apart}
use pm2manager.Common.Int.{leb_ℤ-total, leb_ℤ-trans}
use pm2manager.Errors.{Failure, pm2_error}
use pm2manager.Exec.{
  Exec, Result, ok, err, pure, throw, gets, when, modify, lift, continue, try_catch, ◌>>=◌, ◌>>◌,
  bind_assoc,
}
use pm2manager.Pm2.Normalise.{ProcessSummary, ProcessDescription, to_process_summary}
use pm2manager.Pm2.Service.{
  Target, pm_id, SingleAction, restart, Daemon, Gateway, Answer, reached, refused, silent, attempt,
  attach, connect, ensure_connected, guarded, message_of, p_list, p_action, list, bulk, act,
  pm2_call, verb_of, start_all, start_one, start_failure, start_each, is_down, is_empty,
  all_processes, id_le, answered,
}

-- Attaching the bus neither throws nor touches the connection and the calls.
record Attached (g : Gateway) (r : Result (Unit {0}) × Gateway) : Type 0 where
  returned : r.0 ≡ ok tt
  connection : r.1.connected ≡ g.connected
  calls : r.1.calls ≡ g.calls

attach_lem :
    (b : Bool) (o : Option String) (g : Gateway)
    → Attached g (when b (pure tt) (try_catch (attach o) (λ e. pure tt)) g)
attach_lem true o g = record { returned = refl; connection = refl; calls = refl }
attach_lem false none g = record { returned = refl; connection = refl; calls = refl }
attach_lem false (some m) g = record { returned = refl; connection = refl; calls = refl }

-- Connecting makes no call, and where it returns there is a connection.
record Reached (g : Gateway) (r : Result (Unit {0}) × Gateway) : Type 0 where
  connection : r.0 ≡ ok tt → r.1.connected ≡ true
  calls : r.1.calls ≡ g.calls

connect_lem : (d : Daemon) (g : Gateway) → Reached g (connect d g)
connect_lem d g = unfold connect in tried g.connected refl d.connection
  where
    tried : (b : Bool) → g.connected ≡ b → (a : Answer) → Reached g (when b (pure tt) (attempt a) g)
    tried true e a = record { connection = λ _. e; calls = refl }
    tried false e reached = record { connection = λ _. refl; calls = refl }
    tried false e (refused m) = record { connection = λ h. cc; calls = refl }
    tried false e silent = record { connection = λ h. cc; calls = refl }

ensure_connected_lem : (d : Daemon) (g : Gateway) → Reached g (ensure_connected d g)
ensure_connected_lem d g =
    unfold ensure_connected in continued (connect d g).0 (connect d g).1 (connect_lem d g)
  where
    attaching : Unit {0} → Exec Gateway (Unit {0})
    attaching u = do
      attached ← gets (λ g. g.bus)
      when attached (pure tt) (try_catch (attach d.bus_error) (λ e. pure tt))

    continued :
        (r : Result (Unit {0})) (g' : Gateway)
        → Reached g (r, g')
        → Reached g (continue r attaching g')
    continued (ok u) g' h =
        let after = attach_lem g'.bus d.bus_error g' in
        record {
          connection = λ _. after.connection ∙ h.connection refl;
          calls = after.calls ∙ h.calls;
        }
    continued (err e) g' h = h

-- A connection that stands is not asked for again.
ensure_connected_ready :
    (d : Daemon) (g : Gateway) → g.connected ≡ true → (ensure_connected d g).0 ≡ ok tt
ensure_connected_ready d g h =
    unfold ensure_connected in
    rw h (attach_lem g.bus d.bus_error (record g { connected = true })).returned

-- The call of an action is made whatever the daemon answers to it.
record Called (g : Gateway) (action : SingleAction) (t : Target) (g' : Gateway) : Type 0 where
  connection : g'.connected ≡ g.connected
  calls : g'.calls ≡ g.calls ++ (action, t) ∷ []

p_action_lem :
    (d : Daemon) (action : SingleAction) (t : Target) (message : String) (g : Gateway)
    → Called g action t
        (try_catch (p_action d action t) (λ e. throw (pm2_error message (some (message_of e)))) g).1
p_action_lem d action t message g = answering (d.outcome action t)
  where
    answering :
        (o : Option String)
        → Called g action t
            (try_catch
              (modify (λ g. record g { calls = g.calls ++ (action, t) ∷ [] }) >> answered o)
              (λ e. throw (pm2_error message (some (message_of e))))
              g).1
    answering none = record { connection = refl; calls = refl }
    answering (some m) = record { connection = refl; calls = refl }

guarded_ready :
    (d : Daemon) (action : SingleAction) (t : Target) (message : String) (g : Gateway)
    → g.connected ≡ true
    → Called g action t (guarded d (p_action d action t) message g).1
guarded_ready d action t message g h =
    let once = p_action_lem d action t message (ensure_connected d g).1 in
    let before = ensure_connected_lem d g in
    let returned = ensure_connected_ready d g h in
    unfold guarded in
    rw returned (record {
      connection = once.connection ∙ before.connection returned ∙ sym h;
      calls = once.calls ∙ ap (λ c. c ++ (action, t) ∷ []) before.calls;
    })

start_each_lem :
    (d : Daemon) (ps : List ProcessSummary) (g : Gateway)
    → g.connected ≡ true
    → (start_each d ps g).1.calls ≡ g.calls ++ map (λ p. (restart, pm_id p.pm_id)) ps
unfolding start_each
start_each_lem d [] g h = sym (append-nil g.calls)
start_each_lem d (p ∷ ps) g h =
    let first = guarded_ready d restart (pm_id p.pm_id) (start_failure p) g h in
    let rest = start_each_lem d ps (start_one d p g).1 (first.connection ∙ h) in
    rest
    ∙ ap (λ c. c ++ map (λ p. (restart, pm_id p.pm_id)) ps) first.calls
    ∙ append_assoc g.calls ((restart, pm_id p.pm_id) ∷ []) (map (λ p. (restart, pm_id p.pm_id)) ps)

-- What was listed, when the daemon answers with `source`.
pub data ListedBy
    : Result (Option (List ProcessDescription)) → List ProcessDescription → Type 0 where
  some_list : (source : List ProcessDescription) → ListedBy (ok (some source)) source
  no_list : ListedBy (ok none) []

-- A list that was read: the summaries of what the daemon listed, in the order of their ids.
pub record Listed (d : Daemon) (procs : List ProcessSummary) : Type 0 where
  pub source : List ProcessDescription
  pub answered : ListedBy d.listing source
  pub rearranged : Perm procs (map (to_process_summary d.now) source)
  pub ordered : Apart (λ a b. id_le a b ≡ true) procs

-- The summaries of a list, in order.
abbrev summaries : ℕ → List ProcessDescription → List ProcessSummary
summaries now source = sort id_le (map (to_process_summary now) source)

summaries-Listed :
    (d : Daemon) (source : List ProcessDescription) (procs : List ProcessSummary)
    → ListedBy d.listing source
    → summaries d.now source ≡ procs
    → Listed d procs
summaries-Listed d source procs h e =
    let xs = map (to_process_summary d.now) source in
    subst (Listed d) e (record {
      source = source;
      answered = h;
      rearranged = sort-perm id_le xs;
      ordered =
          sort-Apart id_le (λ a b. leb_ℤ-total a.pm_id b.pm_id)
            (λ a b c. leb_ℤ-trans a.pm_id b.pm_id c.pm_id) xs;
    })

-- The rest of `list`, once the connection has been asked for and the daemon has answered.
abbrev read_list :
    ℕ → Result (Option (List ProcessDescription)) → Exec Gateway (List ProcessSummary)
read_list now answer = do
  descriptions ←
      try_catch (do list ← lift answer; pure (or_else list []))
        (λ e. throw (pm2_error "Failed to list PM2 processes" (some (message_of e))))
  pure (summaries now descriptions)

read_list_lem :
    (now : ℕ) (answer : Result (Option (List ProcessDescription))) (g : Gateway)
    (procs : List ProcessSummary)
    → (read_list now answer g).0 ≡ ok procs
    → (source : List ProcessDescription) × ListedBy answer source × (summaries now source ≡ procs)
read_list_lem now (ok (some source)) g procs h = (source, some_list source, cc)
read_list_lem now (ok none) g procs h = ([], no_list, cc)
read_list_lem now (err f) g procs h = cc

read_list_state :
    (now : ℕ) (answer : Result (Option (List ProcessDescription))) (g : Gateway)
    → (read_list now answer g).1 ≡ g
read_list_state now (ok (some source)) g = refl
read_list_state now (ok none) g = refl
read_list_state now (err f) g = refl

list_lem :
    (d : Daemon) (g : Gateway) → list d g ≡ (ensure_connected d >> read_list d.now d.listing) g
unfolding list guarded
list_lem d g =
    bind_assoc (ensure_connected d)
      (λ _.
        try_catch (p_list d)
          (λ e. throw (pm2_error "Failed to list PM2 processes" (some (message_of e)))))
      (λ descriptions. pure (summaries d.now descriptions)) g

-- A list that the service returns holds the summaries of what the daemon listed, each once, in the
-- order of their ids.
pub list-Listed :
    (d : Daemon) (g : Gateway) (procs : List ProcessSummary)
    → (list d g).0 ≡ ok procs
    → Listed d procs
list-Listed d g procs h =
    reading (ensure_connected d g).0 (ensure_connected d g).1
      (sym (ap (λ r. r.0) (list_lem d g)) ∙ h)
  where
    reading :
        (r : Result (Unit {0})) (g' : Gateway)
        → (continue r (λ _. read_list d.now d.listing) g').0 ≡ ok procs
        → Listed d procs
    reading (ok u) g' k =
        let (source, answered, e) = read_list_lem d.now d.listing g' procs k in
        summaries-Listed d source procs answered e
    reading (err f) g' k = cc

-- Reading the list calls no action, and the connection stands when it returns.
record Asked (d : Daemon) (g : Gateway) : Type 0 where
  connection : (list d g).1.connected ≡ true
  calls : (list d g).1.calls ≡ g.calls

list-Asked :
    (d : Daemon) (g : Gateway) (procs : List ProcessSummary) → (list d g).0 ≡ ok procs → Asked d g
list-Asked d g procs h =
    let (connection, calls) =
      asked (ensure_connected d g).0 refl (sym (ap (λ r. r.0) (list_lem d g)) ∙ h) in
    record {
      connection = ap (λ r. r.1.connected) (list_lem d g) ∙ connection;
      calls = ap (λ r. r.1.calls) (list_lem d g) ∙ calls;
    }
  where
    rest : Exec Gateway (List ProcessSummary)
    rest = read_list d.now d.listing

    asked :
        (r : Result (Unit {0}))
        → (ensure_connected d g).0 ≡ r
        → (continue r (λ _. rest) (ensure_connected d g).1).0 ≡ ok procs
        → ((continue (ensure_connected d g).0 (λ _. rest) (ensure_connected d g).1).1.connected
            ≡ true)
          × ((continue (ensure_connected d g).0 (λ _. rest) (ensure_connected d g).1).1.calls
              ≡ g.calls)
    asked (ok u) e k =
        let same = read_list_state d.now d.listing (ensure_connected d g).1 in
        let before = ensure_connected_lem d g in
        rw e
          (ap (λ g. g.connected) same ∙ before.connection e, ap (λ g. g.calls) same ∙ before.calls)
    asked (err f) e k = cc

-- `startAll`, where the list can be read, restarts by its id each process that is neither online nor
-- launching, in the order of the list and no other, also when some of the calls fail.
pub start_all_calls :
    (d : Daemon) (g : Gateway) (procs : List ProcessSummary)
    → (list d g).0 ≡ ok procs
    → (start_all d g).1.calls
      ≡ g.calls ++ map (λ p. (restart, pm_id p.pm_id)) (filter is_down procs)
unfolding start_all
start_all_calls d g procs h =
    let asked = list-Asked d g procs h in
    rw h (
      start_each_lem d (filter is_down procs) (list d g).1 asked.connection
      ∙ ap (λ c. c ++ map (λ p. (restart, pm_id p.pm_id)) (filter is_down procs)) asked.calls)

-- A bulk action, where the list can be read, calls nothing if there is no process, and else makes
-- one call with the keyword for every process.
pub bulk_calls :
    (d : Daemon) (action : SingleAction) (g : Gateway) (procs : List ProcessSummary)
    → (list d g).0 ≡ ok procs
    → (bulk d action g).1.calls
      ≡ g.calls ++ (if is_empty procs then [] else (action, all_processes) ∷ [])
unfolding bulk
bulk_calls d action g [] h =
    let asked = list-Asked d g [] h in rw h (asked.calls ∙ sym (append-nil g.calls))
bulk_calls d action g (p ∷ ps) h =
    let asked = list-Asked d g (p ∷ ps) h in
    let called = guarded_ready d action all_processes _ (list d g).1 asked.connection in
    rw h (called.calls ∙ ap (λ c. c ++ (action, all_processes) ∷ []) asked.calls)

-- What one action does: no call where the connection fails, and else the one call asked for, which
-- the daemon has taken if the action returns.
pub data Acted (d : Daemon) (action : SingleAction) (t : Target) (g : Gateway)
    : Result (Unit {0}) × Gateway → Type 0 where
  unreached : (e : Failure) (g' : Gateway) → g'.calls ≡ g.calls → Acted d action t g (err e, g')
  answered_by :
      (r : Result (Unit {0})) (g' : Gateway)
      → g'.calls ≡ g.calls ++ (action, t) ∷ []
      → (r ≡ ok tt) ↔ (d.outcome action t ≡ none)
      → Acted d action t g (r, g')

pub act_lem :
    (show : Target → String) (d : Daemon) (action : SingleAction) (t : Target) (g : Gateway)
    → Acted d (pm2_call action) t g (act show d action t g)
unfolding act guarded
act_lem show d action t g =
    reaching (ensure_connected d g).0 (ensure_connected d g).1 (ensure_connected_lem d g).calls
  where
    wrap : Failure → Exec Gateway (Unit {0})
    wrap e = throw (
        pm2_error (template (template "Failed to " (verb_of action) " \"") (show t) "\"")
          (some (message_of e)))

    calling :
        (o : Option String) (g' : Gateway)
        → d.outcome (pm2_call action) t ≡ o
        → g'.calls ≡ g.calls
        → Acted d (pm2_call action) t g (
            try_catch
              (modify (λ g. record g { calls = g.calls ++ (pm2_call action, t) ∷ [] })
                >> answered o)
              wrap
              g')
    calling none g' e h =
        answered_by _ _ (ap (λ c. c ++ (pm2_call action, t) ∷ []) h) ((λ _. e), (λ _. refl))
    calling (some m) g' e h =
        answered_by _ _ (ap (λ c. c ++ (pm2_call action, t) ∷ []) h) ((λ k. cc), (λ k. cc))

    reaching :
        (r : Result (Unit {0})) (g' : Gateway)
        → g'.calls ≡ g.calls
        → Acted d
            (pm2_call action)
            t
            g
            (continue r (λ _. try_catch (p_action d (pm2_call action) t) wrap) g')
    reaching (ok u) g' h = calling (d.outcome (pm2_call action) t) g' refl h
    reaching (err e) g' h = unreached e g' h
