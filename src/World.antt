-- ===== src/World.antt =====
-- The state that a request's handler works on, and what the handler takes from libraries: argon2,
-- otplib, qrcode, node:crypto, express-session with its store, and SQLite's refusal of a write.
-- Each request has an `Env` of its own, with the answers that the libraries give in that request.
pub mod Audit
use pm2manager.Common.{ℕ, ◌≡◌, String, Bool, Option, none, some, List}
use pm2manager.Errors.{unexpected}
use pm2manager.Exec.{Exec, Result, ok, err, fail, pure, modify, gets, focus, ◌>>=◌, ◌>>◌}
use pm2manager.Users.{Users}
use pm2manager.Activity.{ActivityType, ActivityInput, ActivityLog, Metadata, record_activity}
use pm2manager.Sessions.{SessionData, SessionRow, empty_session}

pub record Env : Type 0 where
  -- `datetime('now')`, in seconds
  pub now : ℕ
  -- `getClientIp(req)`
  pub ip : String
  -- whether SQLite refuses the audit row
  pub refused : Bool
  -- whether the session store has created its table
  pub sessions_table : Bool
  -- argon2: `none` where `verify` rejects
  pub hash : String → String
  pub verify : String → String → Option Bool
  -- otplib and qrcode
  pub verify_token : String → String → Bool
  pub generated_secret : String
  pub keyuri : String → String → String → String
  pub to_data_url : String → String
  -- 32 random bytes in hexadecimal
  pub random_hex : String
  -- express-session and its store: `none` where the callback gets an error
  pub regenerate : String → List SessionRow → Option (String × SessionData × List SessionRow)
  pub save : String → SessionData → List SessionRow → Option (List SessionRow)
  pub destroy : String → List SessionRow → Option (List SessionRow)

-- What express-session documents: `regenerate` puts a new, empty session in place.
pub record IsLawful (env : Env) : Type 0 where
  pub regenerate_empty :
      (sid : String) (rows : List SessionRow) (sid' : String) (fresh : SessionData)
      (rows' : List SessionRow)
      → env.regenerate sid rows ≡ some (sid', fresh, rows')
      → fresh ≡ empty_session

-- The tables of the database, and `req.session` with its id.
pub record World : Type 0 where
  pub users : Users
  pub log : ActivityLog
  pub sessions : List SessionRow
  pub sid : String
  pub session : SessionData

-- `activityService.record`.
unfoldable pub audit : Env → ActivityInput → Exec World (Unit {0})
unfolding record_activity
audit env input =
    focus (λ w. w.log) (λ l w. record w { log = l }) (record_activity env.refused env.now input)

-- An audit entry of the controllers that have no metadata.
abbrev pub event : Env → ActivityType → String → String → ActivityInput
event env type message username = record {
  type = type;
  message = message;
  username = some username;
  ip_address = some env.ip;
  metadata = none;
}

abbrev pub set_session : SessionData → World → World
set_session s w = record w { session = s }

abbrev regenerated : Option (String × SessionData × List SessionRow) → Exec World (Unit {0})
regenerated none = fail (unexpected "regenerate")
regenerated (some (sid', fresh, rows)) =
    modify (λ w. record w { sid = sid'; session = fresh; sessions = rows })

-- `regenerateSession`
unfoldable pub regenerate_session : Env → Exec World (Unit {0})
regenerate_session env w = regenerated (env.regenerate w.sid w.sessions) w

abbrev stored : Option (List SessionRow) → Exec World (Unit {0})
stored none = fail (unexpected "session store")
stored (some rows) = modify (λ w. record w { sessions = rows })

-- `saveSession`
unfoldable pub save_session : Env → Exec World (Unit {0})
save_session env w = stored (env.save w.sid w.session w.sessions) w

-- `destroySession`: the row goes, and the request has no session any more.
unfoldable pub destroy_session : Env → Exec World (Unit {0})
destroy_session env w =
    (stored (env.destroy w.sid w.sessions) >> modify (set_session empty_session)) w
