-- ===== src/Pm2/Connection/Single.antt =====
-- One attempt at a time (`connect`, src/services/pm2.service.ts).
use pm2manager.Common.{
  ℕ, ◌≡◌, refl, sym, ap, inl, inr, Bool, true, false, Option, none, some, is_some, List, [], ◌∷◌,
  length, if◌then◌else◌,
}
use pm2manager.Exec.{Result, ok}
use pm2manager.Pm2.Connection.{
  get_elem?, begun, Attempt, Connection, Event, call, timeout, answer, disconnect, settle,
  timed_out, not_reached, step, run, unconnected,
}
use pm2manager.Pm2.Connection.Entries.{get_elem?-append, get_elem?-append_last, get_elem?-set}

-- An attempt is under way exactly when its promise is not settled, and then nothing is connected.
pub record IsSingle (s : Connection) : Type 0 where
  pub current : (i : ℕ) → get_elem? s.attempts i ≡ some none → s.connecting ≡ some i
  pub pending : (i : ℕ) → s.connecting ≡ some i → get_elem? s.attempts i ≡ some none
  pub apart : (i : ℕ) → s.connecting ≡ some i → s.connected ≡ false

pub settle-IsSingle :
    (i : ℕ) (r : Result (Unit {0})) (c : Bool) (s : Connection)
    → IsSingle s
    → IsSingle (settle i r c (get_elem? s.attempts i) s)
settle-IsSingle i r c s h = entry (get_elem? s.attempts i) refl
  where
    entry : (o : Option Attempt) → get_elem? s.attempts i ≡ o → IsSingle (settle i r c o s)
    entry none e = h
    entry (some (some r')) e = h
    entry (some none) e = record {
      current = λ j k.
          let (before, different) = get_elem?-set s.attempts i j r k in
          let this = h.current i e in
          let that = h.current j before in let same : i ≡ j = cc in absurd (different same);
      pending = λ j k. cc;
      apart = λ j k. cc;
    }

pub call-IsSingle :
    (s : Connection)
    → IsSingle s
    → (b : Bool) → s.connected ≡ b
    → (o : Option ℕ) → s.connecting ≡ o
    → IsSingle (if b then s else if is_some o then s else begun s)
call-IsSingle s h true e o f = h
call-IsSingle s h false e (some j) f = h
call-IsSingle s h false e none f = record {
  current = λ i k. elim (get_elem?-append s.attempts none none i k) [
    | inl before ↦ let now = h.current i before in cc
    | inr (last, _) ↦ ap some (sym last)
  ];
  pending = λ i k.
      let last : length s.attempts ≡ i = cc in rw (← last) (get_elem?-append_last s.attempts none);
  apart = λ i k. e;
}

pub step-IsSingle : (e : Event) (s : Connection) → IsSingle s → IsSingle (step e s)
unfolding step
step-IsSingle call s h = call-IsSingle s h s.connected refl s.connecting refl
step-IsSingle (timeout i) s h = settle-IsSingle i timed_out s.connected s h
step-IsSingle (answer i (some m)) s h = settle-IsSingle i (not_reached m) s.connected s h
step-IsSingle (answer i none) s h = settle-IsSingle i (ok tt) true s h
step-IsSingle disconnect s h = record {
  current = h.current;
  pending = h.pending;
  apart = λ i k. refl;
}

run-IsSingle_from : (es : List Event) (s : Connection) → IsSingle s → IsSingle (run es s)
unfolding run
run-IsSingle_from [] s h = h
run-IsSingle_from (e ∷ es) s h = run-IsSingle_from es (step e s) (step-IsSingle e s h)

-- Whatever comes, in any order and however late, at most one attempt is under way: it is the one that
-- `connecting` holds, its promise alone is not settled, and nothing is connected meanwhile.
pub run-IsSingle : (es : List Event) → IsSingle (run es unconnected)
run-IsSingle es =
    run-IsSingle_from es unconnected
      (record { current = λ i h. cc; pending = λ i h. cc; apart = λ i h. refl })
