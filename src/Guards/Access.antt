-- ===== src/Guards/Access.antt =====
-- Who reaches a handler behind the guards (src/middleware/csrf.middleware.ts,
-- src/middleware/auth.middleware.ts).
use pm2manager.Common.{
  ℕ, ◌≡◌, refl, ap, ◌⊎◌, inl, inr, String, Bool, true, false, not, ◌&&◌, Option, none, some, List,
  length, ◌==◌, codes_eq, codes_eq_iff, str_eq, if◌then◌else◌,
}
use pm2manager.Errors.{Failure, forbidden_error}
use pm2manager.Exec.{Exec, Result, err, pure, throw, when, ◌>>◌}
use pm2manager.Sessions.{SessionUser}
use pm2manager.World.{World}
use pm2manager.Guards.{
  Request, is_safe, constant_time_equals, matches, csrf_protection, administrator, require_admin,
  users_route,
}

both_true : (a b : Bool) → (if a then b else false) ≡ true → b ≡ true
both_true true b h = h
both_true false b h = cc

and_true : (a b c : Bool) → (a && b && c) ≡ true → c ≡ true
and_true true true c h = h
and_true true false c h = cc
and_true false b c h = cc

constant_time_equals-eq :
    (bytes : String → List ℕ) (a b : String)
    → ((s t : String) → bytes s ≡ bytes t → s ≡ t)
    → constant_time_equals bytes a b ≡ true
    → a ≡ b
unfolding constant_time_equals
constant_time_equals-eq bytes a b injective h = injective a b (
    (codes_eq_iff (bytes a) (bytes b)).0
      (both_true (length (bytes a) == length (bytes b)) (codes_eq (bytes a) (bytes b)) h))

-- A token that passes is the secret of the session.
matches-eq :
    (bytes : String → List ℕ) (secret provided : Option String)
    → ((s t : String) → bytes s ≡ bytes t → s ≡ t)
    → matches bytes secret provided ≡ true
    → (s : String) × (secret ≡ some s) × (provided ≡ some s)
matches-eq bytes none provided injective h = cc
matches-eq bytes (some s) none injective h = cc
matches-eq bytes (some s) (some p) injective h =
    let equal =
      constant_time_equals-eq bytes p s injective
        (and_true (not (str_eq s "")) (not (str_eq p "")) (constant_time_equals bytes p s) h) in
    (s, refl, ap some equal)

-- What a request to a route for administrators comes to.
pub data Access {A : Type 0} (req : Request) (handler : Exec World A) (w : World)
    : Result A × World → Type 0 where
  refused : (e : Failure) → Access req handler w (err e, w)
  admitted :
      (u : SessionUser)
      → w.session.user ≡ some u
      → u.is_admin ≡ true
      → (is_safe req.method ≡ true)
        ⊎ ((s : String) × (w.session.csrf_secret ≡ some s) × (req.csrf_header ≡ some s))
      → Access req handler w (handler w)

-- A request to `/api/users` either changes nothing and is refused, or the handler runs: then the
-- session has an administrator, and unless the method is GET, HEAD or OPTIONS, the header holds the
-- secret of the session. The bytes of different texts are taken to be different.
pub users_route-Access :
    {A : Type 0} (bytes : String → List ℕ) (req : Request) (handler : Exec World A) (w : World)
    → ((s t : String) → bytes s ≡ bytes t → s ≡ t)
    → Access req handler w (users_route bytes req handler w)
unfolding users_route csrf_protection require_admin
users_route-Access {A} bytes req handler w injective =
    passed (is_safe req.method) refl (matches bytes w.session.csrf_secret req.csrf_header) refl
  where
    Token : Type 0
    Token =
        (is_safe req.method ≡ true)
        ⊎ ((s : String) × (w.session.csrf_secret ≡ some s) × (req.csrf_header ≡ some s))

    as_user :
        (u : SessionUser) (b : Bool)
        → w.session.user ≡ some u
        → u.is_admin ≡ b
        → Token
        → Access req handler w (
            (when b (pure tt) (throw (forbidden_error "Administrator privileges required"))
                >> handler)
              w)
    as_user u true e f t = admitted u e f t
    as_user u false e f t = refused _

    as_session :
        (o : Option SessionUser)
        → w.session.user ≡ o
        → Token
        → Access req handler w ((administrator o >> handler) w)
    as_session none e t = refused _
    as_session (some u) e t = as_user u u.is_admin e refl t

    passed :
        (safe : Bool)
        → is_safe req.method ≡ safe
        → (same : Bool) → matches bytes w.session.csrf_secret req.csrf_header ≡ same
        → Access req handler w (
            (when safe
                  (pure tt)
                  (when same (pure tt) (throw (forbidden_error "Invalid or missing CSRF token")))
                >> require_admin
                >> handler)
              w)
    passed true e same f = as_session w.session.user refl (inl e)
    passed false e true f =
        as_session w.session.user refl
          (inr (matches-eq bytes w.session.csrf_secret req.csrf_header injective f))
    passed false e false f = refused _
