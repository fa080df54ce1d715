-- ===== src/Admin/Audit.antt =====
-- The audit entry of the user of the session (`activityService.record`, src/services/activity.service.ts).
use pm2manager.Common.{◌≡◌, String}
use pm2manager.Exec.{ok}
use pm2manager.Activity.{ActivityType, Metadata}
use pm2manager.World.{Env, World}
use pm2manager.World.Audit.{logged, audit_lem}
use pm2manager.Admin.{audit_action, action_event}

-- It never throws and changes nothing but the log.
pub audit_action_lem :
    (env : Env) (type : ActivityType) (message : String) (metadata : Metadata) (w : World)
    → audit_action env type message metadata w
      ≡ (ok tt, record w { log = logged env (action_event env w type message metadata) w.log })
audit_action_lem env type message metadata w =
    unfold audit_action in audit_lem env (action_event env w type message metadata) w
