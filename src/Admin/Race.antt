-- ===== src/Admin/Race.antt =====
-- Two requests that create users at once: `createUser` of src/services/auth.service.ts awaits the
-- hash between its check and its insertion, so both checks may come before both insertions.
use pm2manager.Common.{String, Bool}
use pm2manager.Exec.{Exec, pure, ◌>>=◌, ◌>>◌}
use pm2manager.Users.{UserRecord, Users, CreateUserData}
use pm2manager.Users.Table.{extended}
use pm2manager.World.{Env}
use pm2manager.Auth.Service.{check_username, insert_user}
use pm2manager.Admin.Creation.{input}

pub record Creation : Type 0 where
  pub env : Env
  pub username : String
  pub password : String
  pub is_admin : Bool

-- Both checks, then both insertions.
unfoldable pub interleaved : Creation → Creation → Exec Users (UserRecord × UserRecord)
interleaved a b = do
  check_username a.username
  check_username b.username
  first ← insert_user a.env a.username a.password a.is_admin
  second ← insert_user b.env b.username b.password b.is_admin
  pure (first, second)

abbrev data_of : Creation → CreateUserData
data_of c = input c.env c.username c.password c.is_admin

module _ (a b : Creation) (t : Users) where
  abbrev once : Users
  once = extended a.env.now (data_of a) t

  abbrev twice : Users
  twice = extended b.env.now (data_of b) once
