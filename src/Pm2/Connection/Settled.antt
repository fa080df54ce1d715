-- ===== src/Pm2/Connection/Settled.antt =====
-- Each attempt is settled once (`connect`, src/services/pm2.service.ts).
use pm2manager.Common.{
  ℕ, ◌≡◌, ◌<◌, refl, ap, ◌∙◌, Bool, true, false, Option, none, some, is_some, List, [], ◌∷◌, ◌++◌,
  length, length-append, arith, ◌≤◌, if◌then◌else◌,
}
use pm2manager.Exec.{Result, ok}
use pm2manager.Pm2.Connection.{
  get_elem?, begun, Attempt, Connection, Event, call, timeout, answer, disconnect, settle,
  timed_out, not_reached, step, run,
}
use pm2manager.Pm2.Connection.Entries.{
  get_elem?-append_kept, get_elem?-set_kept, get_elem?-set_self, length-set, get_elem?-below,
}

-- A settled attempt stays as it was settled.
module _ (j : ℕ) (r' : Result (Unit {0})) where
  settle_kept :
      (i : ℕ) (r : Result (Unit {0})) (c : Bool) (s : Connection)
      → get_elem? s.attempts j ≡ some (some r')
      → get_elem? (settle i r c (get_elem? s.attempts i) s).attempts j ≡ some (some r')
  settle_kept i r c s h = entry (get_elem? s.attempts i) refl
    where
      entry :
          (o : Option Attempt)
          → get_elem? s.attempts i ≡ o
          → get_elem? (settle i r c o s).attempts j ≡ some (some r')
      entry none e = h
      entry (some (some _)) e = h
      entry (some none) e = get_elem?-set_kept s.attempts i j r r' e h

  call_kept :
      (b c : Bool) (s : Connection)
      → get_elem? s.attempts j ≡ some (some r')
      → get_elem? (if b then s else if c then s else begun s).attempts j ≡ some (some r')
  call_kept true c s h = h
  call_kept false true s h = h
  call_kept false false s h = get_elem?-append_kept s.attempts (none ∷ []) (some r') j h

  step_kept :
      (e : Event) (s : Connection)
      → get_elem? s.attempts j ≡ some (some r')
      → get_elem? (step e s).attempts j ≡ some (some r')
  unfolding step
  step_kept call s h = call_kept s.connected (is_some s.connecting) s h
  step_kept (timeout i) s h = settle_kept i timed_out s.connected s h
  step_kept (answer i (some m)) s h = settle_kept i (not_reached m) s.connected s h
  step_kept (answer i none) s h = settle_kept i (ok tt) true s h
  step_kept disconnect s h = h

  run_kept :
      (es : List Event) (s : Connection)
      → get_elem? s.attempts j ≡ some (some r')
      → get_elem? (run es s).attempts j ≡ some (some r')
  unfolding run
  run_kept [] s h = h
  run_kept (e ∷ es) s h = run_kept es (step e s) (step_kept e s h)

length-settle :
    (i : ℕ) (r : Result (Unit {0})) (c : Bool) (o : Option Attempt) (s : Connection)
    → length (settle i r c o s).attempts ≡ length s.attempts
length-settle i r c none s = refl
length-settle i r c (some none) s = length-set s.attempts i (some r)
length-settle i r c (some (some _)) s = refl

-- No attempt is forgotten.
length-step-le : (e : Event) (s : Connection) → length s.attempts ≤ length (step e s).attempts
unfolding step
length-step-le call s = joined s.connected (is_some s.connecting)
  where
    joined :
        (b c : Bool)
        → length s.attempts ≤ length (if b then s else if c then s else begun s).attempts
    joined true c = omega arith
    joined false true = omega arith
    joined false false = omega (arith, length-append s.attempts (none ∷ []))
length-step-le (timeout i) s =
    omega (arith, length-settle i timed_out s.connected (get_elem? s.attempts i) s)
length-step-le (answer i (some m)) s =
    omega (arith, length-settle i (not_reached m) s.connected (get_elem? s.attempts i) s)
length-step-le (answer i none) s =
    omega (arith, length-settle i (ok tt) true (get_elem? s.attempts i) s)
length-step-le disconnect s = omega arith

length-run-le : (es : List Event) (s : Connection) → length s.attempts ≤ length (run es s).attempts
unfolding run
length-run-le [] s = omega arith
length-run-le (e ∷ es) s = omega (arith, length-step-le e s, length-run-le es (step e s))

timeout_settles :
    (i : ℕ) (s : Connection)
    → i < length s.attempts
    → (r : Result (Unit {0})) × (get_elem? (step (timeout i) s).attempts i ≡ some (some r))
unfolding step
timeout_settles i s h = let (x, e) = get_elem?-below s.attempts i h in entry x e
  where
    entry :
        (x : Attempt)
        → get_elem? s.attempts i ≡ some x
        → (r : Result (Unit {0})) × (get_elem?
              (settle i timed_out s.connected (get_elem? s.attempts i) s).attempts
              i
            ≡ some (some r))
    entry none e = (timed_out, rw e (get_elem?-set_self s.attempts i none (some timed_out) e))
    entry (some r) e = (r, rw e e)

run-append : (es fs : List Event) (s : Connection) → run (es ++ fs) s ≡ run fs (run es s)
unfolding run
run-append [] fs s = refl
run-append (e ∷ es) fs s = run-append es fs (step e s)

-- An attempt that has begun is settled at the latest by its timer, whatever came before and comes
-- after: everyone who waits for it gets one answer, which nothing changes later.
pub attempt_settles :
    (i : ℕ) (before after : List Event) (s : Connection)
    → i < length s.attempts
    → (r : Result (Unit {0})) × ((later : List Event)
        → get_elem? (run later (run (before ++ timeout i ∷ after) s)).attempts i ≡ some (some r))
attempt_settles i before after s h =
    let started = length-run-le before s in
    let (r, e) = timeout_settles i (run before s) (omega (arith, started)) in
    let settled = run_kept i r after (step (timeout i) (run before s)) e in
    (
      r,
      λ later. run_kept i r later (run (before ++ timeout i ∷ after) s) (
          ap (λ t. get_elem? t.attempts i) (run-append before (timeout i ∷ after) s)
          ∙ (unfold run in settled)),
    )
