-- ===== src/Tests/Storage.antt =====
-- The audit log, the sessions table and the error handler.
use pm2manager.Common.{◌≡◌, refl, true, none, some, [], ◌∷◌}
use pm2manager.Activity.{
  ActivityInput, ActivityLog, logout, process_stop, all_activity, count, list, appended, prune,
}
use pm2manager.Sessions.{delete_by_user_id}
use pm2manager.Tests.Data.{session_row}

abbrev entry : ActivityInput
entry = record {
  type = logout;
  message = "bye";
  username = none;
  ip_address = none;
  metadata = none;
}

abbrev log : ActivityLog
log =
    appended 90 (record entry { type = process_stop })
      (appended 50 entry (appended 10 entry (record { rows = []; last_id = 0 })))

two_logouts : count (some logout) log ≡ 2
unfolding count
two_logouts = refl

first_page :
    list (record all_activity { limit = some 1; type = some logout }) log
    ≡ record {
      id = 2;
      type = logout;
      message = "bye";
      username = none;
      ip_address = none;
      metadata = none;
      created_at = 50;
    }
      ∷ []
unfolding list
first_page = refl

pruned : (prune 86460500 1 log).0 ≡ 2
unfolding prune
pruned = refl

revoked : (delete_by_user_id true 2 (session_row ∷ [])).0 ≡ 1
unfolding delete_by_user_id
revoked = refl

not_revoked : (delete_by_user_id true 21 (session_row ∷ [])).0 ≡ 0
unfolding delete_by_user_id
not_revoked = refl
