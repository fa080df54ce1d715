-- ===== src/Tests/CreateAdmin.antt =====
-- The command that resets a password.
use pm2manager.Common.{String, ◌≡◌, refl, some, List, [], ◌∷◌}
use pm2manager.Users.{find_by_username}
use pm2manager.Auth.Service.{verify_credentials}
use pm2manager.CreateAdmin.{asks_admin, main}
use pm2manager.CreateAdmin.Recovers.{holder, main_recovers}
use pm2manager.Tests.Data.{env, table}
use pm2manager.Tests.Accounts.{table-IsWellFormed}

-- Seven characters are too few, and then nothing is changed.
too_short : main env ("root" ∷ "secret7" ∷ []) table ≡ (2, table)
unfolding main
too_short = refl

abbrev arguments : List String
arguments = "--admin" ∷ "ROOT" ∷ "hunter22" ∷ []

main_recovers_example :
    ((main env arguments table).0 ≡ 0)
    × (verify_credentials env "ROOT" "hunter22" (main env arguments table).1
        ≡ some (
            holder env "ROOT" "hunter22"
              (asks_admin arguments)
              (find_by_username "ROOT" table)
              table))
main_recovers_example =
    main_recovers env arguments table "ROOT" "hunter22" table-IsWellFormed refl refl
