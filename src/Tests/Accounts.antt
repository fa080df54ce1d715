-- ===== src/Tests/Accounts.antt =====
-- Signing in, and managing users.
use pm2manager.Common.{◌≡◌, refl, ◌<◌, true, false, none, some, arith, codes_eq, fold_case}
use pm2manager.Errors.{app, unauthorized_error}
use pm2manager.Exec.{err}
use pm2manager.Users.{CreateUserData}
use pm2manager.Users.Table.{IsWellFormed}
use pm2manager.World.{World}
use pm2manager.Auth.Controller.{login}
use pm2manager.Auth.Reach.{
  Reach, start, act, sign_in, answer, run, Authenticated, session-Authenticated,
}
use pm2manager.Admin.{remove, admin_count}
use pm2manager.Admin.Removal.{remove_keeps_admin}
use pm2manager.Admin.Race.{Creation}
use pm2manager.Tests.Data.{env, env-IsLawful, table, visitor, signed_in}

-- A user with TOTP has a challenge after the password, and a session after the code.
abbrev challenged : World
challenged = run env (sign_in "ann" "tiger") visitor

abbrev answered : World
answered = run env (answer "123456") challenged

ann_user : answered.session.user ≡ some (record { id = 2; username = "Ann"; is_admin = true })
unfolding run codes_eq fold_case
ann_user = refl

ann_challenged : challenged.session.user ≡ none
unfolding run codes_eq fold_case
ann_challenged = refl

reached : Reach answered
reached =
    act (act (start {w = visitor} refl) env env-IsLawful (sign_in "ann" "tiger") refl) env
      env-IsLawful (answer "123456") refl

wrong_password :
    (login env "root" "guess" visitor).0
    ≡ err (app (unauthorized_error "Invalid username or password"))
unfolding login codes_eq fold_case
wrong_password = refl

session-Authenticated_example : Authenticated reached 2
session-Authenticated_example =
    session-Authenticated reached (record { id = 2; username = "Ann"; is_admin = true }) ann_user

pub table-IsWellFormed : IsWellFormed table
unfolding codes_eq fold_case
table-IsWellFormed = record { bounded = omega arith; apart = (((omega arith, refl), tt), (tt, tt)) }

two_admins : 0 < admin_count table
unfolding admin_count fold_case
two_admins = omega arith

remove_keeps_admin_example : 0 < admin_count (remove env 2 signed_in).1.users
remove_keeps_admin_example = remove_keeps_admin env 2 signed_in table-IsWellFormed two_admins

abbrev bob : CreateUserData
bob = record { username = "bob"; password_hash = env.hash "hunter22"; is_admin = false }

abbrev lower_bob : Creation
lower_bob = record { env = env; username = "bob"; password = "hunter22"; is_admin = false }

abbrev upper_bob : Creation
upper_bob = record lower_bob { username = "Bob" }
