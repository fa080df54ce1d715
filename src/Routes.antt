-- ===== src/Routes.antt =====
-- The routes of the application, in the order in which express tries them: src/app.ts from the pages
-- on, and src/routes/*.ts. How express compares a segment of the path is a parameter, and so is
-- whether a guard lets a request pass; the middleware for every request stands before all of this,
-- and the files under /static, which no layer here takes, are left out.
pub mod Demands
pub mod Guarded
pub mod Addresses
use pm2manager.Common.{
  String, Bool, true, false, ◌&&◌, ◌||◌, Option, none, some, List, [], ◌∷◌, ◌++◌, str_eq,
  if◌then◌else◌,
}

-- The schemas that a request is validated with, by what they validate.
pub data Schema : Type 0 where
  login two_factor_login change_password enable_two_factor disable_two_factor create_user
        user_id_param process_id_param process_action_param bulk_action_param log_stream_param
        history_query activity_query update_settings :
      Schema

-- The middleware in front of a handler.
pub data Guard : Type 0 where
  api_rate_limiter login_rate_limiter csrf_protection require_auth require_admin require_page
        redirect_if_authenticated :
      Guard
  validate : Schema → Guard

pub data Handler : Type 0 where
  login_page app_page healthz : Handler
  csrf_token login_user verify_two_factor logout me change_password_of setup_two_factor
        enable_two_factor_of disable_two_factor_of :
      Handler
  process_list bulk_action process_detail log_stream process_action process_remove : Handler
  dashboard_summary history_names history_series activity_list get_settings put_settings : Handler
  user_list user_create user_remove : Handler

pub data Segment : Type 0 where
  fixed : String → Segment
  param : Segment

-- A layer of a router: `router.use(guard)`, or a route with its guards and its handler.
pub data Layer : Type 0 where
  through : Guard → Layer
  route : (method : String) (path : List Segment) (guards : List Guard) (handler : Handler) → Layer

-- A layer of the application: guards under a prefix, a router under a prefix, or a route.
pub data AppLayer : Type 0 where
  under : List String → List Guard → AppLayer
  mount : List String → List Layer → AppLayer
  page :
      (method : String) (path : List Segment) (guards : List Guard) (handler : Handler) → AppLayer

abbrev pub auth_router : List Layer
auth_router =
    route "GET" (fixed "csrf-token" ∷ []) [] csrf_token
    ∷ route "POST" (fixed "login" ∷ []) (login_rate_limiter ∷ validate login ∷ []) login_user
    ∷ route "POST" (fixed "2fa" ∷ []) (login_rate_limiter ∷ validate two_factor_login ∷ [])
        verify_two_factor
    ∷ route "POST" (fixed "logout" ∷ []) [] logout
    ∷ route "GET" (fixed "me" ∷ []) (require_auth ∷ []) me
    ∷ route "POST" (fixed "change-password" ∷ []) (require_auth ∷ validate change_password ∷ [])
        change_password_of
    ∷ route "POST" (fixed "2fa" ∷ fixed "setup" ∷ []) (require_auth ∷ []) setup_two_factor
    ∷ route "POST" (fixed "2fa" ∷ fixed "enable" ∷ [])
        (require_auth ∷ validate enable_two_factor ∷ []) enable_two_factor_of
    ∷ route "POST" (fixed "2fa" ∷ fixed "disable" ∷ [])
        (require_auth ∷ validate disable_two_factor ∷ []) disable_two_factor_of
    ∷ []

abbrev pub process_router : List Layer
process_router =
    through require_auth
    ∷ route "GET" [] [] process_list
    ∷ route "POST" (fixed "actions" ∷ param ∷ []) (validate bulk_action_param ∷ []) bulk_action
    ∷ route "GET" (param ∷ []) (validate process_id_param ∷ []) process_detail
    ∷ route "GET" (param ∷ fixed "logs" ∷ fixed "stream" ∷ []) (validate log_stream_param ∷ [])
        log_stream
    ∷ route "POST" (param ∷ param ∷ []) (validate process_action_param ∷ []) process_action
    ∷ route "DELETE" (param ∷ []) (validate process_id_param ∷ []) process_remove
    ∷ []

abbrev pub dashboard_router : List Layer
dashboard_router = through require_auth ∷ route "GET" [] [] dashboard_summary ∷ []

abbrev pub history_router : List Layer
history_router =
    through require_auth
    ∷ route "GET" (fixed "names" ∷ []) [] history_names
    ∷ route "GET" [] (validate history_query ∷ []) history_series
    ∷ []

abbrev pub activity_router : List Layer
activity_router =
    through require_auth ∷ route "GET" [] (validate activity_query ∷ []) activity_list ∷ []

abbrev pub settings_router : List Layer
settings_router =
    through require_auth
    ∷ route "GET" [] [] get_settings
    ∷ route "PUT" [] (require_admin ∷ validate update_settings ∷ []) put_settings
    ∷ []

abbrev pub user_router : List Layer
user_router =
    through require_admin
    ∷ route "GET" [] [] user_list
    ∷ route "POST" [] (validate create_user ∷ []) user_create
    ∷ route "DELETE" (param ∷ []) (validate user_id_param ∷ []) user_remove
    ∷ []

abbrev pub app : List AppLayer
app =
    page "GET" (fixed "login" ∷ []) (redirect_if_authenticated ∷ []) login_page
    ∷ page "GET" [] (require_page ∷ []) app_page
    ∷ page "GET" (fixed "healthz" ∷ []) [] healthz
    ∷ under ("api" ∷ []) (api_rate_limiter ∷ csrf_protection ∷ [])
    ∷ mount ("api" ∷ "auth" ∷ []) auth_router
    ∷ mount ("api" ∷ "processes" ∷ []) process_router
    ∷ mount ("api" ∷ "dashboard" ∷ []) dashboard_router
    ∷ mount ("api" ∷ "history" ∷ []) history_router
    ∷ mount ("api" ∷ "activity" ∷ []) activity_router
    ∷ mount ("api" ∷ "settings" ∷ []) settings_router
    ∷ mount ("api" ∷ "users" ∷ []) user_router
    ∷ []

-- What becomes of a request: a handler runs, a guard stops it, or no layer takes it.
pub data Outcome : Type 0 where
  handled : Handler → Outcome
  stopped : Guard → Outcome
  unmatched : Outcome

module _ (same : String → String → Bool) (passes : Guard → Bool) where
  -- A GET route takes HEAD too.
  abbrev pub takes : String → String → Bool
  takes route_method method =
      str_eq route_method method || str_eq route_method "GET" && str_eq method "HEAD"

  unfoldable pub matches : List Segment → List String → Bool
  matches [] [] = true
  matches (fixed s ∷ ps) (x ∷ xs) = same s x && matches ps xs
  matches (param ∷ ps) (x ∷ xs) = matches ps xs
  matches _ _ = false

  -- What is left of the path behind a prefix.
  unfoldable pub strip : List String → List String → Option (List String)
  strip [] path = some path
  strip (s ∷ prefix) [] = none
  strip (s ∷ prefix) (x ∷ path) = if same s x then strip prefix path else none

  -- The first guard that does not let the request pass stops it.
  unfoldable pub guarded : List Guard → Outcome → Outcome
  guarded [] next = next
  guarded (g ∷ gs) next = if passes g then guarded gs next else stopped g

  unfoldable pub walk : List Layer → String → List String → Outcome → Outcome
  unfolding guarded matches
  walk [] method path next = next
  walk (through g ∷ ls) method path next = guarded (g ∷ []) (walk ls method path next)
  walk (route m p gs h ∷ ls) method path next =
      if takes m method && matches p path then guarded gs (handled h) else walk ls method path next

  abbrev pub inside : Option (List String) → (List String → Outcome) → Outcome → Outcome
  inside none f next = next
  inside (some rest) f next = f rest

  unfoldable pub dispatch : List AppLayer → String → List String → Outcome
  unfolding walk strip guarded matches
  dispatch [] method path = unmatched
  dispatch (under prefix gs ∷ ls) method path =
      let next = dispatch ls method path in
      inside (strip prefix path) (λ rest. guarded gs next) next
  dispatch (mount prefix layers ∷ ls) method path =
      let next = dispatch ls method path in
      inside (strip prefix path) (λ rest. walk layers method rest next) next
  dispatch (page m p gs h ∷ ls) method path =
      let next = dispatch ls method path in
      if takes m method && matches p path then guarded gs (handled h) else next
