-- ===== src/Processes.antt =====
-- The routes that act on processes: src/controllers/process.controller.ts, with the schemas of their
-- parameters (src/validation/schemas.ts, src/middleware/validate.middleware.ts). A parameter of the
-- path is its UTF-16 code units.
pub mod Targets
pub mod Outcome
use pm2manager.Common.{
  ℕ, ◌+◌, ◌-◌, ◌*◌, String, Bool, true, false, not, ◌&&◌, ◌||◌, Option, none, some, List, [], ◌∷◌,
  ◌==◌, leb, length, any, codes, codes_eq, fold_case, template, if◌then◌else◌,
}
use pm2manager.Common.Numerals.{all_digits, decimal}
use pm2manager.Common.Int.{ℤ, pos, negsuc}
use pm2manager.Errors.{validation_error, not_found_error}
use pm2manager.Exec.{Exec, pure, throw, focus, when, ◌>>=◌, ◌>>◌}
use pm2manager.Http.{Response, send_success}
use pm2manager.Activity.{
  ActivityType, MetaValue, Metadata, text, number, process_start, process_stop, process_restart,
  process_reload, process_delete, process_start_all, process_stop_all, process_restart_all,
  process_reload_all,
}
use pm2manager.World.{Env, World}
use pm2manager.Admin.{audit_action}
use pm2manager.Pm2.Normalise.{ProcessSummary, ProcessDetail}
use pm2manager.Pm2.Service.{
  SingleAction as PmAction, start as pm_start, stop as pm_stop, restart as pm_restart,
  reload as pm_reload, delete as pm_delete, Target, pm_id, name, Daemon, Gateway, list as pm2_list,
  describe, act, bulk, start_all as pm2_start_all, all_processes,
}

-- Where the routes act: on the tables of the application, and on PM2.
pub record Site : Type 0 where
  pub web : World
  pub gateway : Gateway

-- What the routes take from elsewhere: the answers of the request, those of the daemon, the text of
-- a target in a template literal, the double that is nearest to an integer, and the text of zod's
-- flattened error.
pub record Context : Type 0 where
  pub env : Env
  pub daemon : Daemon
  pub show : Target → String
  pub rounded : ℕ → ℕ
  pub flattened : String

abbrev pub on_web : {A : Type 0} → Exec World A → Exec Site A
on_web m = focus (λ s. s.web) (λ w s. record s { web = w }) m

abbrev pub on_gateway : {A : Type 0} → Exec Gateway A → Exec Site A
on_gateway m = focus (λ s. s.gateway) (λ g s. record s { gateway = g }) m

-- White space and line ends of ECMAScript, which `trim` takes off.
abbrev pub is_space : ℕ → Bool
is_space c =
    leb 9 c && leb c 13
    || c == 32
    || c == 160
    || c == 5760
    || leb 8192 c && leb c 8202
    || c == 8232
    || c == 8233
    || c == 8239
    || c == 8287
    || c == 12288
    || c == 65279

unfoldable pub trim_start : List ℕ → List ℕ
trim_start [] = []
trim_start (c ∷ cs) = let rest = trim_start cs in if is_space c then rest else c ∷ cs

abbrev pub with_end : ℕ → List ℕ → List ℕ
with_end c [] = if is_space c then [] else c ∷ []
with_end c (d ∷ ds) = c ∷ d ∷ ds

unfoldable pub trim_end : List ℕ → List ℕ
trim_end [] = []
trim_end (c ∷ cs) = with_end c (trim_end cs)

-- `v.toLowerCase() !== 'all'`; the code units that lower to ASCII letters here are ASCII ones.
abbrev pub is_reserved : List ℕ → Bool
is_reserved v = codes_eq (fold_case v) (b'a' ∷ b'l' ∷ b'l' ∷ [])

-- `processTarget`: the value as it is trimmed, where it passes.
unfoldable pub process_target : List ℕ → Option (List ℕ)
unfolding trim_start trim_end codes_eq fold_case
process_target raw =
    let v = trim_end (trim_start raw) in
    if leb 1 (length v) && leb (length v) 200 && not (is_reserved v) then some v else none

-- `/^\d+$/.test(idOrName) ? Number(idOrName) : idOrName`
unfoldable pub resolve_target : Context → List ℕ → Target
unfolding decimal
resolve_target ctx v =
    if leb 1 (length v) && all_digits v then pm_id (pos (ctx.rounded (decimal 0 v))) else name v

pub data SingleAction : Type 0 where
  start stop restart reload : SingleAction

pub data BulkActionParam : Type 0 where
  start_all stop_all restart_all reload_all : BulkActionParam

-- `SINGLE_ACTION_CONFIG`
abbrev pub run_of : SingleAction → PmAction
run_of start = pm_start
run_of stop = pm_stop
run_of restart = pm_restart
run_of reload = pm_reload

abbrev pub type_of : SingleAction → ActivityType
type_of start = process_start
type_of stop = process_stop
type_of restart = process_restart
type_of reload = process_reload

abbrev pub verb_of : SingleAction → String
verb_of start = "started"
verb_of stop = "stopped"
verb_of restart = "restarted"
verb_of reload = "reloaded"

-- `BULK_ACTION_CONFIG`
abbrev pub bulk_run : BulkActionParam → Daemon → Exec Gateway (Unit {0})
bulk_run start_all d = pm2_start_all d
bulk_run stop_all d = bulk d pm_stop
bulk_run restart_all d = bulk d pm_restart
bulk_run reload_all d = bulk d pm_reload

abbrev pub bulk_type : BulkActionParam → ActivityType
bulk_type start_all = process_start_all
bulk_type stop_all = process_stop_all
bulk_type restart_all = process_restart_all
bulk_type reload_all = process_reload_all

abbrev pub bulk_verb : BulkActionParam → String
bulk_verb start_all = "started"
bulk_verb stop_all = "stopped"
bulk_verb restart_all = "restarted"
bulk_verb reload_all = "reloaded"

abbrev pub param_of : BulkActionParam → String
param_of start_all = "start-all"
param_of stop_all = "stop-all"
param_of restart_all = "restart-all"
param_of reload_all = "reload-all"

-- The target as the metadata of an audit entry hold it.
abbrev pub target_value : Context → Target → MetaValue
target_value ctx (pm_id (pos n)) = number n
target_value ctx t = text (ctx.show t)

unfoldable pub list : Context → Exec Site (Response (List ProcessSummary))
unfolding send_success
list ctx = do processes ← on_gateway (pm2_list ctx.daemon); pure (send_success processes 200)

abbrev pub found : Option ProcessDetail → Exec Site (Response ProcessDetail)
found none = throw (not_found_error "Process not found")
found (some p) = pure (send_success p 200)

unfoldable pub detail : Context → List ℕ → Exec Site (Response ProcessDetail)
unfolding resolve_target send_success
detail ctx id_or_name = do
  p ← on_gateway (describe ctx.show ctx.daemon (resolve_target ctx id_or_name))
  found p

-- A call of PM2, and the audit entry where it returns.
abbrev pub audited :
    Context
    → Exec Gateway (Unit {0})
    → ActivityType
    → String
    → Metadata
    → Exec Site (Response (Unit {0}))
audited ctx run type message metadata =
    on_gateway run
    >> on_web (audit_action ctx.env type message metadata)
    >> pure (send_success tt 200)

unfoldable pub action : Context → List ℕ → SingleAction → Exec Site (Response (Unit {0}))
unfolding send_success
action ctx id_or_name chosen =
    let target = resolve_target ctx id_or_name in
    audited ctx (act ctx.show ctx.daemon (run_of chosen) target) (type_of chosen)
      (template (template "Process \"" (ctx.show target) "\" ") (verb_of chosen) "")
      (("target", target_value ctx target) ∷ [])

unfoldable pub remove : Context → List ℕ → Exec Site (Response (Unit {0}))
unfolding send_success
remove ctx id_or_name =
    let target = resolve_target ctx id_or_name in
    audited ctx (act ctx.show ctx.daemon pm_delete target) process_delete
      (template "Process \"" (ctx.show target) "\" deleted")
      (("target", target_value ctx target) ∷ [])

unfoldable pub bulk_action : Context → BulkActionParam → Exec Site (Response (Unit {0}))
unfolding send_success
bulk_action ctx chosen =
    audited ctx (bulk_run chosen ctx.daemon) (bulk_type chosen)
      (template "All processes " (bulk_verb chosen) "") (("action", text (param_of chosen)) ∷ [])

-- `validateParams`: the handler gets the parsed parameters, or an error is passed on.
abbrev pub validated : {P A : Type 0} → Context → Option P → (P → Exec Site A) → Exec Site A
validated ctx none handler = throw (validation_error "Validation failed" (some ctx.flattened))
validated ctx (some p) handler = handler p

-- `z.enum([...])`
abbrev pub is_text : List ℕ → String → Bool
is_text raw word = codes_eq raw (codes word)

unfoldable pub single_action_of : List ℕ → Option SingleAction
unfolding codes_eq
single_action_of raw =
    if is_text raw "start"
    then some start
    else if is_text raw "stop"
    then some stop
    else if is_text raw "restart"
    then some restart
    else if is_text raw "reload"
    then some reload
    else none

unfoldable pub bulk_action_of : List ℕ → Option BulkActionParam
unfolding codes_eq
bulk_action_of raw =
    if is_text raw "start-all"
    then some start_all
    else if is_text raw "stop-all"
    then some stop_all
    else if is_text raw "restart-all"
    then some restart_all
    else if is_text raw "reload-all"
    then some reload_all
    else none

abbrev pub both_params : Option (List ℕ) → Option SingleAction → Option (List ℕ × SingleAction)
both_params (some v) (some a) = some (v, a)
both_params _ _ = none

unfoldable pub detail_route : Context → List ℕ → Exec Site (Response ProcessDetail)
unfolding process_target detail
detail_route ctx id_or_name = validated ctx (process_target id_or_name) (λ v. detail ctx v)

unfoldable pub action_route : Context → List ℕ → List ℕ → Exec Site (Response (Unit {0}))
unfolding process_target single_action_of action
action_route ctx id_or_name chosen =
    validated ctx (both_params (process_target id_or_name) (single_action_of chosen))
      (λ p. action ctx p.0 p.1)

unfoldable pub remove_route : Context → List ℕ → Exec Site (Response (Unit {0}))
unfolding process_target remove
remove_route ctx id_or_name = validated ctx (process_target id_or_name) (λ v. remove ctx v)

unfoldable pub bulk_route : Context → List ℕ → Exec Site (Response (Unit {0}))
unfolding bulk_action_of bulk_action
bulk_route ctx chosen = validated ctx (bulk_action_of chosen) (λ a. bulk_action ctx a)
