-- ===== src/CreateAdmin/Recovers.antt =====
-- What the command gives (src/scripts/create-admin.ts).
use mathlib.Core.Option
use pm2manager.Common.{
  ◌≡◌, refl, ap, ◌∙◌, arith, Bool-cases, String, Bool, true, Option, none, some, List, inl, inr,
  ◌==◌, if◌then◌else◌,
}
use pm2manager.Users.{UserRecord, Users, inserted, same_name, find_by_username, update_password}
use pm2manager.Users.Queries.{find-map}
use pm2manager.Users.Table.{IsWellFormed}
use pm2manager.World.{Env}
use pm2manager.Auth.Service.{hash_password, verify_credentials, verify_password}
use pm2manager.Admin.Creation.{input, create_user-free, find-created}
use pm2manager.CreateAdmin.{positional, asks_admin, accepted, granted, main}

-- The user afterwards: a new one, or the one that had the name, with no more than its password changed.
abbrev pub holder :
    Env → (username password : String) → Bool → Option UserRecord → Users → UserRecord
holder env username password is_admin none t =
    inserted env.now (input env username password is_admin) t
holder env username password is_admin (some u) t = record u {
  password_hash = env.hash password;
  updated_at = env.now;
}

module _ (env : Env) (username password : String) (is_admin : Bool) (t : Users)
    (wf : IsWellFormed t) (good : env.verify (env.hash password) password ≡ some true) where
  reset_found :
      (u : UserRecord)
      → find_by_username username t ≡ some u
      → find_by_username username (update_password env.now u.id (hash_password env password) t)
        ≡ some (record u { password_hash = env.hash password; updated_at = env.now })
  unfolding find_by_username update_password hash_password
  reset_found u h =
      find-map (λ v. same_name v.username username) change kept t.rows
      ∙ ap (Option.map change) h
      ∙ here
    where
      change : UserRecord → UserRecord
      change v =
          if v.id == u.id
          then record v { password_hash = env.hash password; updated_at = env.now }
          else v

      kept :
          (v : UserRecord) → same_name (change v).username username ≡ same_name v.username username
      kept v = elim (Bool-cases (v.id == u.id)) [ inl e ↦ rw e refl | inr e ↦ rw e refl ]

      here :
          Option.map change (some u)
          ≡ some (record u { password_hash = env.hash password; updated_at = env.now })
      here = elim (Bool-cases (u.id == u.id)) [ inl e ↦ rw e refl | inr e ↦ ground arith ]

  abbrev IsGiven : (o : Option UserRecord) → Type 0
  IsGiven o =
      ((granted env username password is_admin o t).0 ≡ 0)
      × (verify_credentials env username password (granted env username password is_admin o t).1
          ≡ some (holder env username password is_admin o t))

  granted-IsGiven : (o : Option UserRecord) → find_by_username username t ≡ o → IsGiven o
  unfolding verify_credentials verify_password
  granted-IsGiven none h =
      rw (create_user-free env username password is_admin t wf h)
        (refl, rw (find-created env username password is_admin t h, good) refl)
  granted-IsGiven (some u) h = (refl, rw (reset_found u h, good) refl)

-- Where the arguments are a name and a password of eight units or more, and argon2 verifies what it has
-- hashed, the script exits with 0 and from then on the name and the password are accepted: for a new
-- user, an administrator where `--admin` is given, or for the user that had the name, of whom nothing
-- but the password is changed, with `--admin` too.
pub main_recovers :
    (env : Env) (args : List String) (t : Users) (username password : String)
    → IsWellFormed t
    → env.verify (env.hash password) password ≡ some true
    → accepted (positional args) ≡ some (username, password)
    → ((main env args t).0 ≡ 0)
      × (verify_credentials env username password (main env args t).1
          ≡ some (holder env username password (asks_admin args) (find_by_username username t) t))
unfolding main
main_recovers env args t username password wf good h = rw h (
    granted-IsGiven env username password (asks_admin args) t wf good (find_by_username username t)
      refl)
