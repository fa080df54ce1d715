-- ===== src/Processes/Targets.antt =====
-- No route for one process reaches every process: the reserved target
-- (src/validation/schemas.ts, src/controllers/process.controller.ts).
use pm2manager.Common.{
  ℕ, ◌≡◌, ◌≢◌, ◌≤◌, refl, ap, String, Bool, true, false, not, ◌&&◌, Option, none, some, List, [],
  ◌∷◌, ◌++◌, leb, length, arith, codes_eq, fold_case, if◌then◌else◌,
}
use pm2manager.Common.Numerals.{all_digits, decimal}
use pm2manager.Common.Int.{pos}
use pm2manager.Exec.{Result}
use pm2manager.Http.{Response}
use pm2manager.Activity.{ActivityType}
use pm2manager.Pm2.Service.{SingleAction as PmAction, Target, pm_id, name, all_processes}
use pm2manager.Processes.{
  Site, Context, process_target, resolve_target, is_reserved, trim_end, trim_start, SingleAction,
  single_action_of, both_params, validated, action, remove, action_route, remove_route,
}
use pm2manager.Processes.Outcome.{
  Outcome, unreached, declined, taken, action-Outcome, remove-Outcome,
}

-- A value that passes is not empty, has at most 200 code units, and is not the keyword in any case.
pub process_target_lem :
    (raw v : List ℕ)
    → process_target raw ≡ some v
    → (1 ≤ length v) × (length v ≤ 200) × (is_reserved v ≡ false)
unfolding process_target
process_target_lem raw v h = passes (trim_end (trim_start raw)) h
  where
    passes :
        (t : List ℕ)
        → (if leb 1 (length t) && leb (length t) 200 && not (is_reserved t) then some t else none)
          ≡ some v
        → (1 ≤ length v) × (length v ≤ 200) × (is_reserved v ≡ false)
    passes t k = ground arith

keyword : (v : List ℕ) → v ≡ b'a' ∷ b'l' ∷ b'l' ∷ [] → is_reserved v ≢ false
unfolding codes_eq fold_case
keyword v e h = let r = ap is_reserved e in cc

resolve_target-all_processes :
    (ctx : Context) (v : List ℕ) → is_reserved v ≡ false → resolve_target ctx v ≢ all_processes
resolve_target-all_processes ctx v h =
    unfold resolve_target in resolved (leb 1 (length v) && all_digits v)
  where
    resolved :
        (b : Bool) → (if b then pm_id (pos (ctx.rounded (decimal 0 v))) else name v) ≢ all_processes
    resolved true k = cc
    resolved false k = let e : v ≡ b'a' ∷ b'l' ∷ b'l' ∷ [] = cc in keyword v e h

-- The calls that a request adds: none, or one that is not for every process.
pub data Spares (before : List (PmAction × Target)) : List (PmAction × Target) → Type 0 where
  no_call : (after : List (PmAction × Target)) → after ≡ before → Spares before after
  one_call :
      (verb : PmAction) (t : Target) (after : List (PmAction × Target))
      → after ≡ before ++ (verb, t) ∷ []
      → t ≢ all_processes
      → Spares before after

Outcome-Spares :
    (ctx : Context) (verb : PmAction) (t : Target) (type : ActivityType) (message : String)
    (s : Site) (out : Result (Response (Unit {0})) × Site)
    → t ≢ all_processes
    → Outcome ctx verb t type message s out
    → Spares s.gateway.calls out.1.gateway.calls
Outcome-Spares ctx verb t type message s _ k (unreached e g' h) = no_call _ h
Outcome-Spares ctx verb t type message s _ k (declined e reason g' h o) = one_call verb t _ h k
Outcome-Spares ctx verb t type message s _ k (taken g' h o) = one_call verb t _ h k

-- Whatever the parameters of the path, a request to the route of an action on one process, or to
-- that of the deletion of one, makes no call of PM2 or one whose target is not the keyword with
-- which PM2 acts on every process.
pub routes-Spares :
    (ctx : Context) (raw chosen : List ℕ) (s : Site)
    → Spares s.gateway.calls (action_route ctx raw chosen s).1.gateway.calls
      × Spares s.gateway.calls (remove_route ctx raw s).1.gateway.calls
routes-Spares ctx raw chosen s = (
  unfold action_route in acted (process_target raw) refl (single_action_of chosen),
  unfold remove_route in removed (process_target raw) refl,
)
  where
    acted :
        (p : Option (List ℕ))
        → process_target raw ≡ p
        → (a : Option SingleAction)
        → Spares s.gateway.calls
            (validated ctx (both_params p a) (λ q. action ctx q.0 q.1) s).1.gateway.calls
    acted (some v) h (some a) =
        Outcome-Spares ctx _ (resolve_target ctx v) _ _ s _
          (resolve_target-all_processes ctx v (process_target_lem raw v h).2)
          (action-Outcome ctx v a s)
    acted (some v) h none = no_call _ refl
    acted none h a = no_call _ refl

    removed :
        (p : Option (List ℕ))
        → process_target raw ≡ p
        → Spares s.gateway.calls (validated ctx p (λ v. remove ctx v) s).1.gateway.calls
    removed (some v) h =
        Outcome-Spares ctx _ (resolve_target ctx v) _ _ s _
          (resolve_target-all_processes ctx v (process_target_lem raw v h).2)
          (remove-Outcome ctx v s)
    removed none h = no_call _ refl
