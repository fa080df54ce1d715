-- ===== src/Tests/Routes.antt =====
-- The routes and the guards before them.
use pm2manager.Common.{◌≡◌, refl, Bool, true, false, [], ◌∷◌, All, str_eq}
use pm2manager.Routes.{Guard, require_admin, user_list, stopped, handled, app, dispatch}
use pm2manager.Routes.Demands.{required}
use pm2manager.Routes.Guarded.{dispatch_guarded}

abbrev no_admin : Guard → Bool
no_admin require_admin = false
no_admin _ = true

users_need_an_admin :
    dispatch str_eq no_admin app "GET" ("api" ∷ "users" ∷ []) ≡ stopped require_admin
unfolding dispatch
users_need_an_admin = refl

lists_users : dispatch str_eq (λ g. true) app "GET" ("api" ∷ "users" ∷ []) ≡ handled user_list
unfolding dispatch
lists_users = refl

dispatch_guarded_example : All (λ g. true ≡ true) (required user_list)
dispatch_guarded_example =
    dispatch_guarded str_eq (λ g. true) "GET" ("api" ∷ "users" ∷ []) user_list lists_users
