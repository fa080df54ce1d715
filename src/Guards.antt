-- ===== src/Guards.antt =====
-- The guards before the routes of the API: src/middleware/csrf.middleware.ts and
-- src/middleware/auth.middleware.ts. A guard that calls `next()` returns, and one that calls
-- `next(err)` throws.
pub mod Access
use pm2manager.Common.{
  ℕ, String, Bool, true, false, not, ◌&&◌, ◌||◌, Option, none, some, List, [], ◌∷◌, any, length,
  ◌==◌, str_eq, codes_eq, is_blank, or_else, if◌then◌else◌,
}
use pm2manager.Errors.{authentication_required, forbidden_error}
use pm2manager.Exec.{Exec, pure, throw, gets, modify, when, ◌>>=◌, ◌>>◌}
use pm2manager.Http.{Response, send_success}
use pm2manager.Sessions.{SessionUser}
use pm2manager.World.{Env, World, set_session}

-- `req.method`, and the header `x-csrf-token`.
pub record Request : Type 0 where
  pub method : String
  pub csrf_header : Option String

abbrev pub safe_methods : List String
safe_methods = "GET" ∷ "HEAD" ∷ "OPTIONS" ∷ []

abbrev pub is_safe : String → Bool
is_safe method = any (λ m. str_eq m method) safe_methods

-- `getCsrfToken`: a secret is made where the session has none, or an empty one.
unfoldable pub get_csrf_token : Env → Exec World String
get_csrf_token env w =
    when (is_blank w.session.csrf_secret)
      (modify (λ w. set_session (record w.session { csrf_secret = some env.random_hex }) w)
        >> pure env.random_hex)
      (pure (or_else w.session.csrf_secret "")) w

-- `authController.csrfToken`: the token, as the client labels its data.
abbrev pub issue_csrf_token : {D : Type 0} → (String → D) → Env → Exec World (Response D)
issue_csrf_token label env = get_csrf_token env >>= λ t. pure (send_success (label t) 200)

-- `Buffer.from` is a parameter: the bytes of a text. `timingSafeEqual` compares them.
unfoldable pub constant_time_equals : (String → List ℕ) → String → String → Bool
unfolding codes_eq
constant_time_equals bytes a b =
    if length (bytes a) == length (bytes b) then codes_eq (bytes a) (bytes b) else false

abbrev pub matches : (String → List ℕ) → Option String → Option String → Bool
matches bytes (some secret) (some provided) =
    not (str_eq secret "") && not (str_eq provided "") && constant_time_equals bytes provided secret
matches bytes _ _ = false

unfoldable pub csrf_protection : (String → List ℕ) → Request → Exec World (Unit {0})
unfolding constant_time_equals
csrf_protection bytes req w =
    when (is_safe req.method) (pure tt)
      (when (matches bytes w.session.csrf_secret req.csrf_header) (pure tt)
        (throw (forbidden_error "Invalid or missing CSRF token")))
      w

abbrev pub signed_in : Option SessionUser → Exec World (Unit {0})
signed_in none = throw authentication_required
signed_in (some u) = pure tt

unfoldable pub require_auth : Exec World (Unit {0})
require_auth w = signed_in w.session.user w

abbrev pub administrator : Option SessionUser → Exec World (Unit {0})
administrator none = throw authentication_required
administrator (some u) =
    when u.is_admin (pure tt) (throw (forbidden_error "Administrator privileges required"))

unfoldable pub require_admin : Exec World (Unit {0})
require_admin w = administrator w.session.user w

-- A handler of `/api/users` (src/routes/user.routes.ts), behind the guards that app.ts mounts.
unfoldable pub users_route :
    {A : Type 0} → (String → List ℕ) → Request → Exec World A → Exec World A
users_route bytes req handler = csrf_protection bytes req >> require_admin >> handler

-- The update of the settings (src/routes/settings.routes.ts).
unfoldable pub settings_route :
    {A : Type 0} → (String → List ℕ) → Request → Exec World A → Exec World A
settings_route bytes req handler =
    csrf_protection bytes req >> require_auth >> require_admin >> handler
