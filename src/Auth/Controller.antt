-- ===== src/Auth/Controller.antt =====
-- src/controllers/auth.controller.ts. Each handler is the function inside `asyncHandler`.
use pm2manager.Common.{
  String, Bool, true, false, not, ◌&&◌, Option, none, some, ◌==◌, or_else, is_blank, template,
}
use pm2manager.Errors.{
  authentication_required, unauthorized_error, bad_request_error, conflict_error,
}
use pm2manager.Exec.{Exec, pure, throw, gets, modify, focus, when, ◌>>=◌, ◌>>◌}
use pm2manager.Http.{Response, send_success}
use pm2manager.Users.{UserRecord, find_by_id, set_totp}
use pm2manager.Sessions.{SessionUser, Pending2fa}
use pm2manager.Activity.{
  ActivityInput, login_success, login_failed, logout as logged_out, password_changed, twofa_enabled,
  twofa_disabled,
}
use pm2manager.World.{
  Env, World, audit, event, set_session, regenerate_session, save_session, destroy_session,
}
use pm2manager.Auth.Service.{
  PublicUser, verify_password, verify_credentials, to_public_user,
  change_password as change_user_password, verify_token, generate_secret, build_otp_auth_url,
  generate_qr_data_url,
}

abbrev pub required_user : Option SessionUser → Exec World SessionUser
required_user none = throw authentication_required
required_user (some u) = pure u

unfoldable pub current_user : Exec World SessionUser
current_user w = required_user w.session.user w

unfoldable pub establish_session : Env → SessionUser → Exec World (Unit {0})
unfolding regenerate_session save_session
establish_session env user =
    regenerate_session env
    >> modify (λ w. set_session (record w.session { user = some user }) w)
    >> save_session env

-- `{ id: user.id, username: user.username, isAdmin: user.is_admin === 1 }`
abbrev pub session_user : UserRecord → SessionUser
session_user u = record { id = u.id; username = u.username; is_admin = u.is_admin == 1 }

-- `{ twoFactorRequired, user? }`
pub record LoginData : Type 0 where
  pub two_factor_required : Bool
  pub user : Option PublicUser

abbrev pub challenged : UserRecord → World → World
challenged user w =
    set_session
      (record w.session {
        pending2fa = some (record { user_id = user.id; username = user.username });
      })
      w

unfoldable pub begin_challenge : Env → UserRecord → Exec World (Response LoginData)
unfolding save_session send_success
begin_challenge env user =
    modify (challenged user)
    >> save_session env
    >> pure (send_success (record { two_factor_required = true; user = none }) 200)

abbrev pub audit_login : Env → UserRecord → Exec World (Unit {0})
audit_login env user =
    audit env
      (event env login_success (template "User \"" user.username "\" logged in") user.username)

unfoldable pub complete_login : Env → UserRecord → Exec World (Unit {0})
unfolding establish_session audit
complete_login env user = establish_session env (session_user user) >> audit_login env user

abbrev pub welcome : UserRecord → Response LoginData
welcome user =
    send_success (record { two_factor_required = false; user = some (to_public_user user) }) 200

abbrev pub failed_login : Env → String → ActivityInput
failed_login env username =
    event env login_failed (template "Failed login for \"" username "\"") username

unfoldable pub answer_credentials :
    Env → String → Option UserRecord → Exec World (Response LoginData)
unfolding begin_challenge complete_login to_public_user send_success audit
answer_credentials env username none =
    audit env (failed_login env username)
    >> throw (unauthorized_error "Invalid username or password")
answer_credentials env username (some user) =
    when (user.totp_enabled == 1) (begin_challenge env user)
      (complete_login env user >> pure (welcome user))

unfoldable pub login : Env → String → String → Exec World (Response LoginData)
unfolding verify_credentials answer_credentials
login env username password = do
  user ← gets (λ w. verify_credentials env username password w.users)
  answer_credentials env username user

-- `user && user.totp_secret && totpService.verifyToken(token, user.totp_secret)`
unfoldable pub token_accepted : Env → String → UserRecord → Bool
unfolding verify_token
token_accepted env token user =
    not (is_blank user.totp_secret) && verify_token env token (or_else user.totp_secret "")

abbrev pub failed_token : Env → String → ActivityInput
failed_token env username =
    event env login_failed (template "Failed 2FA for \"" username "\"") username

unfoldable pub reject_token : Env → String → Exec World (Response PublicUser)
unfolding audit
reject_token env username =
    audit env (failed_token env username)
    >> throw (unauthorized_error "Invalid authentication code")

unfoldable pub accept_token : Env → UserRecord → Exec World (Response PublicUser)
unfolding complete_login to_public_user send_success
accept_token env user =
    modify (λ w. set_session (record w.session { pending2fa = none }) w)
    >> complete_login env user
    >> pure (send_success (to_public_user user) 200)

unfoldable pub answer_token :
    Env → String → Pending2fa → Option UserRecord → Exec World (Response PublicUser)
unfolding reject_token accept_token token_accepted
answer_token env token pending none = reject_token env pending.username
answer_token env token pending (some user) =
    when (token_accepted env token user) (accept_token env user) (reject_token env pending.username)

unfoldable pub answer_pending : Env → String → Option Pending2fa → Exec World (Response PublicUser)
unfolding answer_token find_by_id
answer_pending env token none = throw (unauthorized_error "No pending 2FA challenge")
answer_pending env token (some pending) = do
  user ← gets (λ w. find_by_id pending.user_id w.users)
  answer_token env token pending user

unfoldable pub verify_two_factor : Env → String → Exec World (Response PublicUser)
unfolding answer_pending
verify_two_factor env token w = answer_pending env token w.session.pending2fa w

abbrev pub audit_logout : Env → Option SessionUser → Exec World (Unit {0})
audit_logout env none = pure tt
audit_logout env (some u) =
    audit env (event env logged_out (template "User \"" u.username "\" logged out") u.username)

unfoldable pub logout : Env → Exec World (Response (Unit {0}))
unfolding audit destroy_session send_success
logout env = do
  user ← gets (λ w. w.session.user)
  audit_logout env user
  destroy_session env
  pure (send_success tt 200)

abbrev pub loaded : Option UserRecord → Exec World UserRecord
loaded none = throw authentication_required
loaded (some u) = pure u

-- The user of the session as the table has it now, or 401.
unfoldable pub loaded_user : Exec World UserRecord
unfolding current_user find_by_id
loaded_user = do
  session_user ← current_user
  user ← gets (λ w. find_by_id session_user.id w.users)
  loaded user

unfoldable pub me : Exec World (Response PublicUser)
unfolding loaded_user to_public_user send_success
me = do user ← loaded_user; pure (send_success (to_public_user user) 200)

unfoldable pub change_password : Env → String → String → Exec World (Response (Unit {0}))
unfolding current_user change_user_password audit send_success
change_password env current fresh = do
  user ← current_user
  focus (λ w. w.users) (λ t w. record w { users = t })
      (change_user_password env user.id current fresh)
  audit env (
      event env password_changed (template "User \"" user.username "\" changed their password")
        user.username)
  pure (send_success tt 200)

pub record SetupData : Type 0 where
  pub secret : String
  pub otpauth_url : String
  pub qr_data_url : String

unfoldable pub begin_enrolment : Env → String → UserRecord → Exec World (Response SetupData)
unfolding generate_secret build_otp_auth_url generate_qr_data_url send_success
begin_enrolment env issuer user = do
  let secret = generate_secret env
  modify (λ w. set_session (record w.session { pending_totp_secret = some secret }) w)
  let otpauth_url = build_otp_auth_url env issuer user.username secret
  let qr_data_url = generate_qr_data_url env otpauth_url
  pure (
      send_success
        (record { secret = secret; otpauth_url = otpauth_url; qr_data_url = qr_data_url }) 200)

unfoldable pub setup_two_factor : Env → String → Exec World (Response SetupData)
unfolding loaded_user begin_enrolment
setup_two_factor env issuer = do
  user ← loaded_user
  when (user.totp_enabled == 1) (throw (conflict_error "2FA already enabled" none))
      (begin_enrolment env issuer user)

-- `!secret` is true of a missing and of an empty secret.
unfoldable pub confirm_secret :
    Env → String → SessionUser → String → Exec World (Response (Unit {0}))
unfolding verify_token set_totp audit send_success
confirm_secret env token user secret =
    when (verify_token env token secret)
      (modify (λ w. record w { users = set_totp env.now user.id (some secret) true w.users })
        >> modify (λ w. set_session (record w.session { pending_totp_secret = none }) w)
        >> audit env (
            event env twofa_enabled
              (template "User \"" user.username "\" enabled two-factor authentication")
              user.username)
        >> pure (send_success tt 200))
      (throw (unauthorized_error "Invalid authentication code"))

unfoldable pub enable_two_factor : Env → String → Exec World (Response (Unit {0}))
unfolding current_user confirm_secret
enable_two_factor env token = do
  user ← current_user
  secret ← gets (λ w. w.session.pending_totp_secret)
  when (is_blank secret) (throw (bad_request_error "Start 2FA setup first" none))
      (confirm_secret env token user (or_else secret ""))

unfoldable pub disable_two_factor : Env → String → Exec World (Response (Unit {0}))
unfolding loaded_user verify_password set_totp audit send_success
disable_two_factor env password = do
  user ← loaded_user
  when (verify_password env user.password_hash password)
      (modify (λ w. record w { users = set_totp env.now user.id none false w.users })
        >> audit env (
            event env twofa_disabled
              (template "User \"" user.username "\" disabled two-factor authentication")
              user.username)
        >> pure (send_success tt 200))
      (throw (unauthorized_error "Password is incorrect"))
