-- ===== src/Processes/Outcome.antt =====
-- What an action on one process does, and what it records (src/controllers/process.controller.ts).
use pm2manager.Common.{
  ℕ, ◌≡◌, refl, Option-cases, inl, inr, String, none, some, List, [], ◌∷◌, ◌++◌, template,
}
use pm2manager.Errors.{Failure}
use pm2manager.Exec.{Exec, Result, ok, err}
use pm2manager.Http.{Response, send_success}
use pm2manager.Activity.{ActivityType, Metadata, process_delete}
use pm2manager.World.Audit.{logged}
use pm2manager.Admin.Audit.{audit_action_lem}
use pm2manager.Admin.{action_event}
use pm2manager.Pm2.Service.{
  SingleAction as PmAction, delete as pm_delete, Target, pm2_call, Gateway, act,
}
use pm2manager.Pm2.Calls.{Acted, unreached as not_reached, answered_by, act_lem}
use pm2manager.Processes.{
  Site, Context, resolve_target, SingleAction, run_of, type_of, verb_of, target_value, audited,
  action, remove,
}

-- The site after an audited call.
abbrev pub recorded : Context → ActivityType → String → Metadata → Site → Gateway → Site
recorded ctx type message metadata s g' = record s {
  web = record s.web {
    log = logged ctx.env (action_event ctx.env s.web type message metadata) s.web.log;
  };
  gateway = g';
}

-- An audited call of PM2: where it throws, nothing is recorded and the error passes; where it
-- returns, the entry is recorded and the answer is 200.
pub data Audited (ctx : Context) (type : ActivityType) (message : String) (metadata : Metadata)
    (s : Site) : Result (Unit {0}) × Gateway → Result (Response (Unit {0})) × Site → Type 0 where
  failed :
      (e : Failure) (g' : Gateway)
      → Audited ctx type message metadata s (err e, g') (err e, record s { gateway = g' })
  returned :
      (g' : Gateway)
      → Audited ctx type message metadata s
          (ok tt, g')
          (ok (send_success tt 200), recorded ctx type message metadata s g')

audited_lem :
    (ctx : Context) (run : Exec Gateway (Unit {0})) (type : ActivityType) (message : String)
    (metadata : Metadata) (s : Site)
    → Audited ctx type message metadata s (run s.gateway) (audited ctx run type message metadata s)
audited_lem ctx run type message metadata s = answered (run s.gateway).0 (run s.gateway).1
  where
    answered :
        (r : Result (Unit {0})) (g' : Gateway)
        → Audited ctx type message metadata s
            (r, g')
            (audited ctx (λ g. (r, g')) type message metadata s)
    answered (ok u) g' = rw (audit_action_lem ctx.env type message metadata s.web) (returned g')
    answered (err e) g' = failed e g'

-- What an action on one process comes to: PM2 was not reached, or it refused the call, or it took
-- the call, and only then there is an audit entry.
pub data Outcome (ctx : Context) (verb : PmAction) (t : Target) (type : ActivityType)
    (message : String) (s : Site) : Result (Response (Unit {0})) × Site → Type 0 where
  unreached :
      (e : Failure) (g' : Gateway)
      → g'.calls ≡ s.gateway.calls
      → Outcome ctx verb t type message s (err e, record s { gateway = g' })
  declined :
      (e : Failure) (reason : String) (g' : Gateway)
      → g'.calls ≡ s.gateway.calls ++ (verb, t) ∷ []
      → ctx.daemon.outcome verb t ≡ some reason
      → Outcome ctx verb t type message s (err e, record s { gateway = g' })
  taken :
      (g' : Gateway)
      → g'.calls ≡ s.gateway.calls ++ (verb, t) ∷ []
      → ctx.daemon.outcome verb t ≡ none
      → Outcome ctx verb t type message s (
        ok (send_success tt 200),
        recorded ctx type message (("target", target_value ctx t) ∷ []) s g',
      )

Acted-Outcome :
    (ctx : Context) (verb : PmAction) (t : Target) (type : ActivityType) (message : String)
    (s : Site) (r : Result (Unit {0}) × Gateway) (out : Result (Response (Unit {0})) × Site)
    → Acted ctx.daemon verb t s.gateway r
    → Audited ctx type message (("target", target_value ctx t) ∷ []) s r out
    → Outcome ctx verb t type message s out
Acted-Outcome ctx verb t type message s _ _ (not_reached e g' h) (failed _ _) = unreached e g' h
Acted-Outcome ctx verb t type message s _ _ (answered_by _ g' h k) (returned _) =
    taken g' h (k.0 refl)
Acted-Outcome ctx verb t type message s _ _ (answered_by _ g' h k) (failed e _) =
    elim (Option-cases (ctx.daemon.outcome verb t)) [
      | inl n ↦ let r = k.1 n in cc
      | inr (reason, h') ↦ declined e reason g' h h'
    ]

pub action-Outcome :
    (ctx : Context) (v : List ℕ) (chosen : SingleAction) (s : Site)
    → Outcome ctx
        (pm2_call (run_of chosen))
        (resolve_target ctx v)
        (type_of chosen)
        (template
          (template "Process \"" (ctx.show (resolve_target ctx v)) "\" ")
          (verb_of chosen)
          "")
        s
        (action ctx v chosen s)
action-Outcome ctx v chosen s =
    let target = resolve_target ctx v in
    unfold action in
    Acted-Outcome ctx _ target _ _ s _ _
      (act_lem ctx.show ctx.daemon (run_of chosen) target s.gateway)
      (audited_lem ctx (act ctx.show ctx.daemon (run_of chosen) target) _ _ _ s)

-- The deletion of a process comes to the same: no call, or one call of `delete` on the target that
-- the parameter names, with an audit entry and 200 only where PM2 accepts it.
pub remove-Outcome :
    (ctx : Context) (v : List ℕ) (s : Site)
    → Outcome ctx pm_delete
        (resolve_target ctx v)
        process_delete
        (template "Process \"" (ctx.show (resolve_target ctx v)) "\" deleted")
        s
        (remove ctx v s)
remove-Outcome ctx v s =
    let target = resolve_target ctx v in
    unfold remove in
    Acted-Outcome ctx _ target _ _ s _ _ (act_lem ctx.show ctx.daemon pm_delete target s.gateway)
      (audited_lem ctx (act ctx.show ctx.daemon pm_delete target) _ _ _ s)
