-- ===== src/Activity/Answer.antt =====
-- The endpoint of the audit log (src/controllers/activity.controller.ts), where the query has passed its
-- schema.
use pm2manager.Common.{ℕ, Option, some, List}
use pm2manager.Exec.{Exec, pure}
use pm2manager.Http.{Response, send_success}
use pm2manager.Activity.{ActivityRecord, ActivityType, ActivityLog}
use pm2manager.Activity.{list as list_rows, count as count_rows, all_activity}

pub record ActivityAnswer : Type 0 where
  pub items : List ActivityRecord
  pub total : ℕ
  pub limit : ℕ
  pub offset : ℕ

abbrev pub answer_of : ℕ → ℕ → Option ActivityType → ActivityLog → ActivityAnswer
answer_of limit offset type l = record {
  items =
      list_rows (record all_activity { limit = some limit; offset = some offset; type = type }) l;
  total = count_rows type l;
  limit = limit;
  offset = offset;
}

unfoldable pub list_activity :
    ℕ → ℕ → Option ActivityType → Exec ActivityLog (Response ActivityAnswer)
unfolding list_rows count_rows send_success
list_activity limit offset type l = pure (send_success (answer_of limit offset type l) 200) l
