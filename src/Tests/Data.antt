-- ===== src/Tests/Data.antt =====
-- Data for the tests: libraries whose answers are simple functions, and two users.
use pm2manager.Common.{
  String, true, false, not, none, some, [], ◌∷◌, arith, codes, filter, template, str_eq,
}
use pm2manager.Users.{UserRecord, Users}
use pm2manager.Sessions.{SessionUser, SessionRow, empty_session}
use pm2manager.World.{Env, World, IsLawful}

abbrev pub hashed : String → String
hashed plain = template "h(" plain ")"

abbrev pub env : Env
env = record {
  now = 100;
  ip = "::1";
  refused = false;
  sessions_table = true;
  hash = hashed;
  verify = λ h p. some (str_eq h (hashed p));
  verify_token = λ token secret. str_eq token "123456";
  generated_secret = "SECRET";
  keyuri = λ user issuer secret. template user ":" secret;
  to_data_url = λ url. url;
  random_hex = "c0ffee";
  regenerate = λ sid rows. some ("s2", empty_session, rows);
  save = λ sid s rows. some (record { sid = sid; sess = codes "{}" } ∷ rows);
  destroy = λ sid rows. some (filter (λ r. not (str_eq r.sid sid)) rows);
}

pub env-IsLawful : IsLawful env
env-IsLawful = record { regenerate_empty = λ sid rows sid' fresh rows' h. ground arith }

abbrev pub root : UserRecord
root = record {
  id = 1;
  username = "root";
  password_hash = hashed "secret";
  totp_secret = none;
  totp_enabled = 0;
  is_admin = 1;
  created_at = 1;
  updated_at = 1;
}

-- An administrator with TOTP.
abbrev pub ann : UserRecord
ann = record {
  id = 2;
  username = "Ann";
  password_hash = hashed "tiger";
  totp_secret = some "SECRET";
  totp_enabled = 1;
  is_admin = 1;
  created_at = 1;
  updated_at = 1;
}

abbrev pub table : Users
table = record { rows = root ∷ ann ∷ []; last_id = 2 }

abbrev pub session_row : SessionRow
session_row = record {
  sid = "s9";
  sess = codes "{\"user\":{\"id\":2,\"username\":\"Ann\",\"isAdmin\":true}}";
}

abbrev pub root_user : SessionUser
root_user = record { id = 1; username = "root"; is_admin = true }

-- A request without a user, and one of the administrator `root`.
abbrev pub visitor : World
visitor = record {
  users = table;
  log = record { rows = []; last_id = 0 };
  sessions = session_row ∷ [];
  sid = "s1";
  session = empty_session;
}

abbrev pub signed_in : World
signed_in = record visitor { session = record empty_session { user = some root_user } }
