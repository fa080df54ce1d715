-- ===== src/Admin.antt =====
-- User management: src/controllers/user.controller.ts and src/scripts/create-admin.ts.
pub mod Removal
pub mod Creation
pub mod Race
pub mod Audit
use pm2manager.Common.{
  ℕ, ltb, String, Bool, true, false, not, ◌&&◌, ◌||◌, Option, none, some, List, [], ◌∷◌, map, ◌==◌,
  length, filter, template, str_eq,
}
use pm2manager.Errors.{bad_request_error, conflict_error, not_found_error}
use pm2manager.Exec.{Exec, pure, throw, gets, modify, focus, when, ◌>>=◌, ◌>>◌}
use pm2manager.Http.{Response, send_success}
use pm2manager.Users
use pm2manager.Users.{UserRecord, Users, find_by_id, find_by_username, update_password, list_all}
use pm2manager.Sessions.{SessionUser, delete_by_user_id}
use pm2manager.Activity.{
  ActivityType, ActivityInput, Metadata, user_created, user_deleted, text, number, flag,
}
use pm2manager.World.{Env, World, audit}
use pm2manager.Auth.Service.{PublicUser, to_public_user, create_user, hash_password}

-- `req.session.user?.username ?? null`
abbrev pub actor : World → Option String
actor w = elim w.session.user [ none ↦ none | some u ↦ some u.username ]

abbrev pub action_event : Env → World → ActivityType → String → Metadata → ActivityInput
action_event env w type message metadata = record {
  type = type;
  message = message;
  username = actor w;
  ip_address = some env.ip;
  metadata = some metadata;
}

unfoldable pub list : Exec World (Response (List PublicUser))
unfolding list_all to_public_user send_success
list w = pure (send_success (map to_public_user (list_all w.users)) 200) w

-- `currentUser && id === currentUser.id`
abbrev pub is_self : ℕ → Option SessionUser → Bool
is_self id none = false
is_self id (some u) = id == u.id

unfoldable pub admin_count : Users → ℕ
unfolding list_all
admin_count t = length (filter (λ u. u.is_admin == 1) (list_all t))

-- `activityService.record`, with the user of the session as it is at the call.
unfoldable pub audit_action : Env → ActivityType → String → Metadata → Exec World (Unit {0})
unfolding audit
audit_action env type message metadata w = audit env (action_event env w type message metadata) w

unfoldable pub create : Env → String → String → Bool → Exec World (Response PublicUser)
unfolding create_user to_public_user send_success audit_action
create env username password is_admin = do
  user ←
      focus (λ w. w.users) (λ t w. record w { users = t })
        (create_user env username password is_admin)
  audit_action env user_created (template "Created user \"" user.username "\"")
      (("createdUser", text user.username) ∷ ("isAdmin", flag is_admin) ∷ [])
  pure (send_success (to_public_user user) 201)

-- The deletion, once the checks have passed.
unfoldable pub remove_target : Env → ℕ → UserRecord → Exec World (Response (Unit {0}))
unfolding Users.delete delete_by_user_id audit_action send_success
remove_target env id target = do
  modify (λ w. record w { users = Users.delete id w.users })
  revoked ← gets (λ w. (delete_by_user_id env.sessions_table id w.sessions).0)
  modify (λ w. record w { sessions = (delete_by_user_id env.sessions_table id w.sessions).1 })
  audit_action env user_deleted (template "Deleted user \"" target.username "\"")
      (("deletedUser", text target.username) ∷ ("sessionsRevoked", number revoked) ∷ [])
  pure (send_success tt 200)

unfoldable pub remove_found : Env → ℕ → Option UserRecord → Exec World (Response (Unit {0}))
unfolding admin_count remove_target
remove_found env id none = throw (not_found_error "User not found")
remove_found env id (some target) = do
  admins ← gets (λ w. admin_count w.users)
  when (target.is_admin == 1 && admins == 1)
      (throw (conflict_error "Cannot delete the last administrator" none))
      (remove_target env id target)

unfoldable pub remove : Env → ℕ → Exec World (Response (Unit {0}))
unfolding remove_found find_by_id
remove env id w =
    when (is_self id w.session.user)
      (throw (bad_request_error "You cannot delete your own account" none))
      (remove_found env id (find_by_id id w.users)) w
