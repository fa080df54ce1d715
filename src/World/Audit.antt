-- ===== src/World/Audit.antt =====
-- The audit row of a handler (`activityService.record`, src/services/activity.service.ts).
use pm2manager.Common.{◌≡◌, refl, Bool, true, false, if◌then◌else◌}
use pm2manager.Exec.{ok}
use pm2manager.Activity.{ActivityInput, ActivityLog, appended}
use pm2manager.World.{Env, World, audit}

-- The log after an audit entry: one row more, unless SQLite refuses it.
abbrev pub logged : Env → ActivityInput → ActivityLog → ActivityLog
logged env input l = if env.refused then l else appended env.now input l

-- An audit entry never throws and changes nothing but the log.
pub audit_lem :
    (env : Env) (input : ActivityInput) (w : World)
    → audit env input w ≡ (ok tt, record w { log = logged env input w.log })
unfolding audit
audit_lem env input w = recorded env.refused
  where
    recorded :
        (b : Bool)
        → audit (record env { refused = b }) input w
          ≡ (ok tt, record w { log = if b then w.log else appended env.now input w.log })
    recorded true = refl
    recorded false = refl
