-- ===== src/Activity/Retention.antt =====
-- Writing to the log never fails a request, and pruning (src/services/activity.service.ts).
use pm2manager.Common.{
  ℕ, ◌+◌, ◌-◌, ◌*◌, ◌/◌, ◌≡◌, refl, if◌then◌else◌, Bool, true, false, not, List, arith, ap, ltb,
  length, filter, filter_congr, length-filter-not,
}
use pm2manager.Exec.{ok}
use pm2manager.Activity.{
  ActivityInput, ActivityRecord, ActivityLog, appended, record_activity, prune,
}

-- `record` returns normally whatever SQLite does; it adds one row with the given fields, the next id
-- and the time, or nothing if SQLite refuses.
pub record_activity_lem :
    (refused : Bool) (now : ℕ) (input : ActivityInput) (l : ActivityLog)
    → record_activity refused now input l ≡ (ok tt, if refused then l else appended now input l)
unfolding record_activity
record_activity_lem true now input l = refl
record_activity_lem false now input l = refl

-- A row is younger than `days` days at a time in milliseconds: its second ends less than `days` days
-- ago.
abbrev pub is_young : ℕ → ℕ → ActivityRecord → Bool
is_young now_ms days r = ltb now_ms ((r.created_at + 1) * 1000 + days * 86400000)

young_lem :
    (now_ms days : ℕ) (r : ActivityRecord)
    → not (ltb r.created_at ((now_ms - days * 24 * 60 * 60 * 1000) / 1000)) ≡ is_young now_ms days r
young_lem now_ms days r = ground arith

-- Pruning keeps exactly the rows that are younger than the days given, in their order, and returns
-- how many it dropped.
pub prune_exact :
    (now_ms days : ℕ) (l : ActivityLog)
    → ((prune now_ms days l).1 ≡ record l { rows = filter (is_young now_ms days) l.rows })
      × ((prune now_ms days l).0 + length (prune now_ms days l).1.rows ≡ length l.rows)
unfolding prune
prune_exact now_ms days l = (
  ap (λ (rs : List ActivityRecord). record l { rows = rs })
      (filter_congr
        (λ (r : ActivityRecord).
          not (ltb r.created_at ((now_ms - days * 24 * 60 * 60 * 1000) / 1000)))
        (is_young now_ms days) (young_lem now_ms days) l.rows),
  length-filter-not _ l.rows,
)
