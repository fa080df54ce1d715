-- ===== src/Routes/Addresses.antt =====
-- Where each handler is (src/app.ts, src/routes/*.ts).
use pm2manager.Common.{String, List, [], ◌∷◌}
use pm2manager.Routes.{Handler}

-- The method and the path of each handler, with the parameters that the path has.
abbrev pub method_of : Handler → String
method_of Handler.login_user = "POST"
method_of Handler.verify_two_factor = "POST"
method_of Handler.logout = "POST"
method_of Handler.change_password_of = "POST"
method_of Handler.setup_two_factor = "POST"
method_of Handler.enable_two_factor_of = "POST"
method_of Handler.disable_two_factor_of = "POST"
method_of Handler.bulk_action = "POST"
method_of Handler.process_action = "POST"
method_of Handler.process_remove = "DELETE"
method_of Handler.put_settings = "PUT"
method_of Handler.user_create = "POST"
method_of Handler.user_remove = "DELETE"
method_of _ = "GET"

module _ (id action : String) where
  abbrev pub path_of : Handler → List String
  path_of Handler.login_page = "login" ∷ []
  path_of Handler.app_page = []
  path_of Handler.healthz = "healthz" ∷ []
  path_of Handler.csrf_token = "api" ∷ "auth" ∷ "csrf-token" ∷ []
  path_of Handler.login_user = "api" ∷ "auth" ∷ "login" ∷ []
  path_of Handler.verify_two_factor = "api" ∷ "auth" ∷ "2fa" ∷ []
  path_of Handler.logout = "api" ∷ "auth" ∷ "logout" ∷ []
  path_of Handler.me = "api" ∷ "auth" ∷ "me" ∷ []
  path_of Handler.change_password_of = "api" ∷ "auth" ∷ "change-password" ∷ []
  path_of Handler.setup_two_factor = "api" ∷ "auth" ∷ "2fa" ∷ "setup" ∷ []
  path_of Handler.enable_two_factor_of = "api" ∷ "auth" ∷ "2fa" ∷ "enable" ∷ []
  path_of Handler.disable_two_factor_of = "api" ∷ "auth" ∷ "2fa" ∷ "disable" ∷ []
  path_of Handler.process_list = "api" ∷ "processes" ∷ []
  path_of Handler.bulk_action = "api" ∷ "processes" ∷ "actions" ∷ action ∷ []
  path_of Handler.process_detail = "api" ∷ "processes" ∷ id ∷ []
  path_of Handler.log_stream = "api" ∷ "processes" ∷ id ∷ "logs" ∷ "stream" ∷ []
  path_of Handler.process_action = "api" ∷ "processes" ∷ id ∷ action ∷ []
  path_of Handler.process_remove = "api" ∷ "processes" ∷ id ∷ []
  path_of Handler.dashboard_summary = "api" ∷ "dashboard" ∷ []
  path_of Handler.history_names = "api" ∷ "history" ∷ "names" ∷ []
  path_of Handler.history_series = "api" ∷ "history" ∷ []
  path_of Handler.activity_list = "api" ∷ "activity" ∷ []
  path_of Handler.get_settings = "api" ∷ "settings" ∷ []
  path_of Handler.put_settings = "api" ∷ "settings" ∷ []
  path_of Handler.user_list = "api" ∷ "users" ∷ []
  path_of Handler.user_create = "api" ∷ "users" ∷ []
  path_of Handler.user_remove = "api" ∷ "users" ∷ id ∷ []
