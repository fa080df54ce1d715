-- ===== src/Admin/Creation.antt =====
-- Creating users (`createUser` and `ensureInitialAdmin` of src/services/auth.service.ts).
use pm2manager.Common.{
  ◌≡◌, String, Bool, false, none, some, find-none, find-append_one, Option-cases, inl, inr,
}
use pm2manager.Errors.{app, conflict_error}
use pm2manager.Exec.{ok, err}
use pm2manager.Users.{
  UserRecord, Users, CreateUserData, same_name, name_taken, inserted, find_by_username,
}
use pm2manager.Users.Table.{
  IsWellFormed, create_lem, extended, extended-IsWellFormed, name_taken-false, same_name_refl,
}
use pm2manager.World.{Env}
use pm2manager.Auth.Service.{check_username, insert_user, create_user, hash_password}

module _ (env : Env) (username password : String) (is_admin : Bool) where
  abbrev pub input : CreateUserData
  input = record { username = username; password_hash = env.hash password; is_admin = is_admin }

  pub check_username-free :
      (t : Users) → find_by_username username t ≡ none → check_username username t ≡ (ok tt, t)
  unfolding check_username
  check_username-free t h = rw h

  -- Under a name that some row has, without regard to case, nothing is created.
  create_user-conflict :
      (t : Users) {u : UserRecord}
      → find_by_username username t ≡ some u
      → create_user env username password is_admin t
        ≡ (err (app (conflict_error "Username already exists" none)), t)
  unfolding create_user check_username
  create_user-conflict t h = rw h

  pub insert_user_lem :
      (t : Users)
      → IsWellFormed t
      → name_taken username t ≡ false
      → insert_user env username password is_admin t
        ≡ (ok (inserted env.now input t), extended env.now input t)
  unfolding insert_user hash_password
  insert_user_lem t wf free = create_lem env.now input t wf free

  pub create_user-free :
      (t : Users)
      → IsWellFormed t
      → find_by_username username t ≡ none
      → create_user env username password is_admin t
        ≡ (ok (inserted env.now input t), extended env.now input t)
  unfolding create_user
  create_user-free t wf free =
      rw (check_username-free t free) (insert_user_lem t wf (name_taken-false username t free))

  -- Creating a user under any name keeps the table well formed: ids and, without regard to case,
  -- names stay different.
  pub create_user-IsWellFormed :
      (t : Users) → IsWellFormed t → IsWellFormed (create_user env username password is_admin t).1
  create_user-IsWellFormed t wf = elim (Option-cases (find_by_username username t)) [
    | inl free ↦ rw (create_user-free t wf free) (extended-IsWellFormed env.now input t wf free)
    | inr (u, taken) ↦ rw (create_user-conflict t {u = u} taken) wf
  ]

  -- The new user is found under the name.
  pub find-created :
      (t : Users)
      → find_by_username username t ≡ none
      → find_by_username username (extended env.now input t) ≡ some (inserted env.now input t)
  unfolding find_by_username
  find-created t free =
      find-append_one (λ u. same_name u.username username) t.rows (inserted env.now input t)
        (find-none (λ u. same_name u.username username) t.rows free) (same_name_refl username)
