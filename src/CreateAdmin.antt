-- ===== src/CreateAdmin.antt =====
-- The command that creates a user or resets a password (src/scripts/create-admin.ts). The arguments are
-- those behind the script; what is printed and logged is left out.
pub mod Recovers
use pm2manager.Common.{
  ℕ, ◌+◌, String, Bool, true, false, not, ◌&&◌, ◌||◌, Option, none, some, List, [], ◌∷◌, any,
  filter, ltb, leb, ◌==◌, str_eq, codes, if◌then◌else◌,
}
use pm2manager.Exec.{Result, ok, err}
use pm2manager.Users.{UserRecord, Users, find_by_username, update_password}
use pm2manager.World.{Env}
use pm2manager.Auth.Service.{hash_password, create_user}

-- `a.startsWith('--')`
abbrev pub begins_with_dashes : List ℕ → Bool
begins_with_dashes (a ∷ b ∷ cs) = a == 45 && b == 45
begins_with_dashes _ = false

abbrev pub positional : List String → List String
positional args = filter (λ a. not (begins_with_dashes (codes a))) args

abbrev pub asks_admin : List String → Bool
asks_admin args = any (λ a. str_eq a "--admin") args

-- `password.length`: a character beyond the first 65536 counts twice.
abbrev pub utf16_length : List ℕ → ℕ
utf16_length [] = 0
utf16_length (c ∷ cs) = (if leb 65536 c then 2 else 1) + utf16_length cs

-- The name and the password, unless the script ends with its usage.
abbrev pub accepted : List String → Option (String × String)
accepted (username ∷ password ∷ rest) =
    if str_eq username "" || str_eq password ""
    then none
    else if ltb (utf16_length (codes password)) 8
    then none
    else some (username, password)
accepted _ = none

abbrev pub code_of : Result UserRecord × Users → ℕ × Users
code_of (ok u, t) = (0, t)
code_of (err e, t) = (1, t)

-- An existing user is given the password; `--admin` changes nothing then.
abbrev pub granted :
    Env → (username password : String) → Bool → Option UserRecord → Users → ℕ × Users
granted env username password is_admin none t =
    code_of (create_user env username password is_admin t)
granted env username password is_admin (some u) t =
    (0, update_password env.now u.id (hash_password env password) t)

abbrev pub on_accepted : Env → Bool → Option (String × String) → Users → ℕ × Users
on_accepted env is_admin none t = (2, t)
on_accepted env is_admin (some (username, password)) t =
    granted env username password is_admin (find_by_username username t) t

-- The exit code, and the users afterwards.
unfoldable pub main : Env → List String → Users → ℕ × Users
main env args t = on_accepted env (asks_admin args) (accepted (positional args)) t
