-- ===== src/Admin/Removal.antt =====
-- Deleting a user (`remove` of src/controllers/user.controller.ts).
use pm2manager.Common.{
  ℕ, ◌+◌, ◌<◌, ◌≡◌, refl, ◌≢◌, ap, Bool, true, false, ◌&&◌, Option, none, some, arith, ◌==◌, length,
  filter, if◌then◌else◌, template, [], ◌∷◌,
}
use pm2manager.Errors.{app, bad_request_error, not_found_error, conflict_error}
use pm2manager.Exec.{Result, ok, err, when_cases, throw}
use pm2manager.Http.{Response, send_success}
use pm2manager.Users.{UserRecord, Users, find_by_id, delete}
use pm2manager.Users.Table.{IsWellFormed}
use pm2manager.Users.Queries.{count-others, count-list_all}
use pm2manager.Sessions.{delete_by_user_id}
use pm2manager.Activity.{user_deleted, text, number}
use pm2manager.World.{Env, World}
use pm2manager.World.Audit.{logged}
use pm2manager.Admin.{action_event, is_self, admin_count, remove_target, remove_found, remove}

admin_count-eq : (t : Users) → admin_count t ≡ length (filter (λ u. u.is_admin == 1) t.rows)
unfolding admin_count
admin_count-eq t = count-list_all (λ u. u.is_admin == 1) t

-- What a deletion does: the row and the sessions of the user go, and an audit row is added.
abbrev pub removed : Env → ℕ → UserRecord → World → World
removed env id target w = record w {
  users = delete id w.users;
  sessions = (delete_by_user_id env.sessions_table id w.sessions).1;
  log =
      logged env
        (action_event env w user_deleted (template "Deleted user \"" target.username "\"") (
          ("deletedUser", text target.username)
          ∷ ("sessionsRevoked", number (delete_by_user_id env.sessions_table id w.sessions).0)
          ∷ []))
        w.log;
}

remove_target_lem :
    (env : Env) (id : ℕ) (target : UserRecord) (w : World)
    → remove_target env id target w ≡ (ok (send_success tt 200), removed env id target w)
unfolding remove_target
remove_target_lem env id target w = at env.refused
  where
    at :
        (b : Bool)
        → remove_target (record env { refused = b }) id target w
          ≡ (ok (send_success tt 200), removed (record env { refused = b }) id target w)
    at true = refl
    at false = refl

-- Deleting a user who is found takes one administrator out of the count, or none.
admin_count-delete :
    (id : ℕ) (t : Users) {u : UserRecord}
    → IsWellFormed t
    → find_by_id id t ≡ some u
    → admin_count (delete id t) + (if u.is_admin == 1 then 1 else 0) ≡ admin_count t
admin_count-delete id t {u} wf found =
    rw (admin_count-eq (delete id t), admin_count-eq t)
      (unfold delete find_by_id in
        count-others id (λ v. v.is_admin == 1) t.rows {u = u} wf.apart found)

-- The three refusals, which change nothing, and the deletion.
pub data RemoveOutcome (env : Env) (id : ℕ) (w : World) (r : Result (Response (Unit {0})) × World)
    : Type 0 where
  own_account :
      is_self id w.session.user ≡ true
      → r ≡ (err (app (bad_request_error "You cannot delete your own account" none)), w)
      → RemoveOutcome env id w r
  missing :
      find_by_id id w.users ≡ none
      → r ≡ (err (app (not_found_error "User not found")), w)
      → RemoveOutcome env id w r
  last_administrator :
      (u : UserRecord)
      → find_by_id id w.users ≡ some u
      → u.is_admin ≡ 1
      → admin_count w.users ≡ 1
      → r ≡ (err (app (conflict_error "Cannot delete the last administrator" none)), w)
      → RemoveOutcome env id w r
  deleted :
      (u : UserRecord)
      → is_self id w.session.user ≡ false
      → find_by_id id w.users ≡ some u
      → (u.is_admin ≡ 1 → admin_count w.users ≢ 1)
      → r ≡ (ok (send_success tt 200), removed env id u w)
      → RemoveOutcome env id w r

remove_found_outcome :
    (env : Env) (id : ℕ) (w : World) (o : Option UserRecord)
    → is_self id w.session.user ≡ false
    → find_by_id id w.users ≡ o
    → RemoveOutcome env id w (remove_found env id o w)
remove_found_outcome env id w none other found = unfold remove_found in missing found refl
remove_found_outcome env id w (some u) other found =
    unfold remove_found in
    when_cases (RemoveOutcome env id w) (u.is_admin == 1 && admin_count w.users == 1)
      (throw (conflict_error "Cannot delete the last administrator" none)) (remove_target env id u)
      w (λ h. last_administrator u found (ground (arith, h)) (ground (arith, h)) refl)
      (λ h. deleted u other found (λ a b. ground (arith, h, a, b)) (remove_target_lem env id u w))

remove_outcome : (env : Env) (id : ℕ) (w : World) → RemoveOutcome env id w (remove env id w)
remove_outcome env id w =
    unfold remove in
    when_cases (RemoveOutcome env id w) (is_self id w.session.user)
      (throw (bad_request_error "You cannot delete your own account" none))
      (remove_found env id (find_by_id id w.users)) w (λ self. own_account self refl)
      (λ other. remove_found_outcome env id w (find_by_id id w.users) other refl)

-- No deletion, whoever asks for it, removes the last administrator: on a well-formed table that has
-- one, the handler leaves one.
pub remove_keeps_admin :
    (env : Env) (id : ℕ) (w : World)
    → IsWellFormed w.users
    → 0 < admin_count w.users
    → 0 < admin_count (remove env id w).1.users
remove_keeps_admin env id w wf some_admin = keeps (remove_outcome env id w)
  where
    users_of : {r r' : Result (Response (Unit {0})) × World} → r ≡ r' → r.1.users ≡ r'.1.users
    users_of e = ap (λ (x : Result (Response (Unit {0})) × World). x.1.users) e

    keeps : RemoveOutcome env id w (remove env id w) → 0 < admin_count (remove env id w).1.users
    keeps (own_account _ e) = rw (users_of e) some_admin
    keeps (missing _ e) = rw (users_of e) some_admin
    keeps (last_administrator u _ _ _ e) = rw (users_of e) some_admin
    keeps (deleted u _ found allowed e) =
        rw (users_of e) (ground (arith, admin_count-delete id w.users {u = u} wf found, allowed))
