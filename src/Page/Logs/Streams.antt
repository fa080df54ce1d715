-- ===== src/Page/Logs/Streams.antt =====
-- The streams of the log view (`startLogs`, `stopLogs`, `openLogsFor` and `showView` of
-- public/static/js/app.js).
use mathlib.Core.Path.{subst}
use pm2manager.Common.{
  sym, ◌∙◌, ℕ, ◌≡◌, refl, ap, str_eq_refl, String, true, false, not, Option, none, some, is_some,
  List, [], ◌∷◌, ◌++◌, map, any, str_eq, All, Bool-cases, inl, inr,
}
use pm2manager.Page.Logs.{
  View, is_logs, Panel, append_log, stop_logs, start_logs, show_view, choose, list_processes,
  open_logs_for, open_selected, take_at, answered, shown, asked_for, arrived, step, run,
}

abbrev pub streams_of : Option ℕ → List ℕ
streams_of none = []
streams_of (some i) = i ∷ []

-- The open streams are the one that `logStream` holds, and the buttons say whether there is one.
pub record IsSole (p : Panel) : Type 0 where
  pub sole : p.open_streams ≡ streams_of p.log_stream
  pub start : p.start_disabled ≡ is_some p.log_stream
  pub stop : p.stop_disabled ≡ not (is_some p.log_stream)

-- Views other than that of the logs.
abbrev pub Elsewhere : List View → Type 0
Elsewhere = All (λ v. is_logs v ≡ false)

-- From another view, a view is shown without a stream being closed.
shown_elsewhere :
    (label : String → String) (v : View) (p : Panel)
    → is_logs p.view ≡ false
    → step label (shown v) p ≡ record p { view = v }
unfolding step show_view
shown_elsewhere label v p k = rw k refl

stays_open :
    (label : String → String) (vs : List View) (p : Panel)
    → Elsewhere vs
    → is_logs p.view ≡ false
    → ((run label (map shown vs) p).log_stream ≡ p.log_stream)
      × (is_logs (run label (map shown vs) p).view ≡ false)
unfolding run
stays_open label [] p h k = (refl, k)
stays_open label (v ∷ vs) p (h, hs) k =
    subst
      (λ q.
        ((run label (map shown vs) q).log_stream ≡ p.log_stream)
        × (is_logs (run label (map shown vs) q).view ≡ false))
      (sym (shown_elsewhere label v p k)) (stays_open label vs (record p { view = v }) hs h)

started_lem :
    (label : String → String) (p : Panel)
    → str_eq p.selected "" ≡ false
    → ((start_logs label p).log_stream ≡ some p.opened) × ((start_logs label p).view ≡ p.view)
unfolding start_logs append_log stop_logs
started_lem label p h = rw h (refl, refl)

list_processes_keeps :
    (ids : List String) (p : Panel)
    → ((list_processes ids p).opened ≡ p.opened) × ((list_processes ids p).view ≡ p.view)
unfolding list_processes
list_processes_keeps [] p = (refl, refl)
list_processes_keeps (i ∷ is) p = (refl, refl)

module _ (label : String → String) (id : String) (ids : List String) (named : str_eq id "" ≡ false)
    (there : any (λ o. str_eq o id) ids ≡ true) where
  list_processes_options : (p : Panel) → (list_processes ids p).options ≡ ids
  unfolding list_processes
  list_processes_options p = options ids there
    where
      options :
          (is : List String) → any (λ o. str_eq o id) is ≡ true → (list_processes is p).options ≡ is
      options [] h = cc
      options (i ∷ is) h = refl

  -- The answer starts a stream, whatever view is shown by then.
  starts_anyway :
      (p : Panel)
      → ((open_selected label id (list_processes ids p)).log_stream ≡ some p.opened)
        × ((open_selected label id (list_processes ids p)).view ≡ p.view)
  unfolding open_selected
  starts_anyway p =
      let chosen : choose (list_processes ids p).options id ≡ id =
        rw (list_processes_options p, there) refl in
      let (opened, view) = list_processes_keeps ids p in
      let (stream, same) =
        started_lem label (record (list_processes ids p) { selected = id }) named in
      rw (chosen, str_eq_refl id) (stream ∙ ap some opened, same ∙ view)

  asked_then_left :
      (v : View) (p : Panel)
      → is_logs v ≡ false
      → ((step label (shown v) (step label (asked_for id) p)).asked ≡ p.asked ++ id ∷ [])
        × ((step label (shown v) (step label (asked_for id) p)).view ≡ v)
  unfolding step open_logs_for show_view stop_logs
  asked_then_left v p h = elim (Bool-cases (is_logs p.view)) [
    | inl e ↦ rw (e, h) (refl, refl)
    | inr e ↦ rw (e, h) (refl, refl)
  ]

  arrives :
      (q : Panel)
      → q.asked ≡ id ∷ []
      → step label (arrived 0 ids) q
        ≡ open_selected label id (list_processes ids (record q { asked = [] }))
  unfolding step
  arrives q e = ap (λ o. answered label ids (take_at 0 o) q) e

  -- A user who asks for the logs of a process and goes to another view before the list of processes has
  -- come gets a stream all the same, and it stays open through every later view but that of the logs.
  pub late_answer_streams :
      (v : View) (vs : List View) (p : Panel)
      → p.asked ≡ []
      → Elsewhere (v ∷ vs)
      → (is_some (run label (asked_for id ∷ shown v ∷ arrived 0 ids ∷ map shown vs) p).log_stream
          ≡ true)
        × (is_logs (run label (asked_for id ∷ shown v ∷ arrived 0 ids ∷ map shown vs) p).view
            ≡ false)
  unfolding run
  late_answer_streams v vs p h (k, ks) =
      let q = step label (shown v) (step label (asked_for id) p) in
      let r = step label (arrived 0 ids) q in
      let (asked, view) = asked_then_left v p k in
      let started_r = arrives q (asked ∙ ap (λ xs. xs ++ id ∷ []) h) in
      let (stream, same) = starts_anyway (record q { asked = [] }) in
      let streams : r.log_stream ≡ some q.opened = ap (λ s. s.log_stream) started_r ∙ stream in
      let elsewhere : is_logs r.view ≡ false =
        ap (λ s. is_logs s.view) started_r ∙ ap is_logs same ∙ ap is_logs view ∙ k in
      let (kept, still) = stays_open label vs r ks elsewhere in (ap is_some (kept ∙ streams), still)
