-- ===== src/Auth/Service.antt =====
-- src/services/auth.service.ts and src/services/totp.service.ts.
use pm2manager.Common.{
  ℕ, ◌≡◌, arith, ltb, String, Bool, true, false, Option, none, some, ◌==◌, is_some, or_else,
  if◌then◌else◌,
}
use pm2manager.Errors.{conflict_error, not_found_error, unauthorized_error}
use pm2manager.Exec.{Exec, pure, throw, gets, modify, when, ◌>>=◌, ◌>>◌}
use pm2manager.Users.{
  UserRecord, Users, find_by_id, find_by_username, create, update_password, count_all,
}
use pm2manager.World.{Env}

pub record PublicUser : Type 0 where
  pub id : ℕ
  pub username : String
  pub totp_enabled : Bool
  pub is_admin : Bool
  pub created_at : ℕ
  pub updated_at : ℕ

-- The hash that an unknown user's password is checked against.
abbrev pub dummy_hash : String
dummy_hash =
    "$argon2id$v=19$m=19456,t=2,p=1$KGBmtKWCfA417Kb+DpUuTw$xU8mocjwJyFrt5dYDvTlrmAWfxbeHFfAmZHmFrU0/Ik"

unfoldable pub hash_password : Env → String → String
hash_password env plain = env.hash plain

-- `false` where the library throws.
unfoldable pub verify_password : Env → String → String → Bool
verify_password env hashed plain = or_else (env.verify hashed plain) false

-- The argument of each helper is what the code has just read; the answer for an unknown user is
-- the same whatever the dummy check says.
abbrev pub checked : Env → String → Option UserRecord → Option UserRecord
checked env password none = if verify_password env dummy_hash password then none else none
checked env password (some user) =
    if verify_password env user.password_hash password then some user else none

pub checked-some :
    (env : Env) (password : String) (o : Option UserRecord) {user : UserRecord}
    → checked env password o ≡ some user
    → (o ≡ some user) × (env.verify user.password_hash password ≡ some true)
unfolding verify_password
checked-some env password none h = ground arith
checked-some env password (some u) h = (ground arith, ground arith)

unfoldable pub verify_credentials : Env → String → String → Users → Option UserRecord
unfolding verify_password find_by_username
verify_credentials env username password users =
    checked env password (find_by_username username users)

unfoldable pub to_public_user : UserRecord → PublicUser
to_public_user u = record {
  id = u.id;
  username = u.username;
  totp_enabled = u.totp_enabled == 1;
  is_admin = u.is_admin == 1;
  created_at = u.created_at;
  updated_at = u.updated_at;
}

abbrev rehashed : Env → String → String → Option UserRecord → Exec Users (Unit {0})
rehashed env current fresh none = throw (not_found_error "User not found")
rehashed env current fresh (some user) =
    when (verify_password env user.password_hash current)
      (modify (update_password env.now user.id (hash_password env fresh)))
      (throw (unauthorized_error "Current password is incorrect"))

unfoldable pub change_password : Env → ℕ → String → String → Exec Users (Unit {0})
unfolding verify_password hash_password update_password find_by_id
change_password env user_id current fresh = do
  user ← gets (find_by_id user_id)
  rehashed env current fresh user

-- The check of `createUser`, before the password is hashed.
unfoldable pub check_username : String → Exec Users (Unit {0})
check_username username = do
  existing ← gets (find_by_username username)
  when (is_some existing) (throw (conflict_error "Username already exists" none)) (pure tt)

-- The insertion of `createUser`, after the password is hashed. Another request may run between the
-- two, since hashing is awaited.
unfoldable pub insert_user : Env → String → String → Bool → Exec Users UserRecord
insert_user env username password is_admin = create env.now (record {
  username = username;
  password_hash = hash_password env password;
  is_admin = is_admin;
})

unfoldable pub create_user : Env → String → String → Bool → Exec Users UserRecord
create_user env username password is_admin =
    check_username username >> insert_user env username password is_admin

pub record AdminResult : Type 0 where
  pub created : Bool
  pub username : String
  pub generated_password : Option String

-- `config.admin.password ?? generatedPassword`; the generated one is null if one is configured.
abbrev first_password : Option String → String → String
first_password configured generated = or_else configured generated

unfoldable pub ensure_initial_admin : Env → String → Option String → String → Exec Users AdminResult
ensure_initial_admin env username configured generated = do
  n ← gets count_all
  when (ltb 0 n) (pure (record { created = false; username = username; generated_password = none }))
      (create_user env username (first_password configured generated) true
        >> pure (record {
          created = true;
          username = username;
          generated_password = if is_some configured then none else some generated;
        }))

-- TOTP.
unfoldable pub verify_token : Env → String → String → Bool
verify_token env token secret = env.verify_token token secret

unfoldable pub generate_secret : Env → String
generate_secret env = env.generated_secret

unfoldable pub build_otp_auth_url : Env → String → String → String → String
build_otp_auth_url env issuer username secret = env.keyuri username issuer secret

unfoldable pub generate_qr_data_url : Env → String → String
generate_qr_data_url env otpauth_url = env.to_data_url otpauth_url
