-- ===== src/Config/Safety.antt =====
-- What the configuration that is accepted guarantees, and when it is silent.
use mathlib.Core.Path.{subst}
use pm2manager.Common.{
  or_else, ℕ, ◌≤◌, ◌≡◌, refl, ap, ◌↔◌, ◌⊎◌, inl, inr, arith, String, Bool, true, false, not, Option,
  none, some, List, [], ◌∷◌, ◌++◌, any, str_eq, str_eq_iff, Bool-cases, if◌then◌else◌,
}
use pm2manager.Config.{
  Environment, EnvData, insecure_secret, one_of, positive, positive_int, nonempty_text, node_envs,
  cookie_values, log_levels, ◌>>=◌, safe_parse, config_of, given_password, assert_production_safety,
  is_production, cookie_is_secure,
}

bind_some :
    {A B : Type 0} (o : Option A) (f : A → Option B) {b : B}
    → (o >>= f) ≡ some b
    → (a : A) × (o ≡ some a) × (f a ≡ some b)
bind_some none f h = cc
bind_some (some a) f h = (a, refl, h)

positive_int_lem :
    (to_number : String → Option ℕ) (default : ℕ) (o : Option String) {n : ℕ}
    → 1 ≤ default
    → positive_int to_number default o ≡ some n
    → 1 ≤ n
positive_int_lem to_number default none d h = ground arith
positive_int_lem to_number default (some v) d h = within (to_number v) h
  where
    within : (o : Option ℕ) {n : ℕ} → positive o ≡ some n → 1 ≤ n
    within none h = cc
    within (some m) h = ground arith

nonempty_text_lem :
    (default : String) (o : Option String) {v : String}
    → str_eq default "" ≡ false
    → nonempty_text default o ≡ some v
    → str_eq v "" ≡ false
nonempty_text_lem default none d h =
    subst (λ v. str_eq v "" ≡ false) (ap (λ o. or_else o default) h) d
nonempty_text_lem default (some w) d h = elim (Bool-cases (str_eq w "")) [
  | inl e ↦ let wrong = rw e at h in absurd (cc)
  | inr e ↦
      let same = rw e at h in subst (λ v. str_eq v "" ≡ false) (ap (λ o. or_else o default) same) e
]

abbrev pub is_in : List String → String → Bool
is_in values v = any (λ t. str_eq t v) values

one_of_lem :
    (values : List String) (default : String) (o : Option String) {v : String}
    → is_in values default ≡ true
    → one_of values default o ≡ some v
    → is_in values v ≡ true
one_of_lem values default none d h =
    subst (λ v. is_in values v ≡ true) (ap (λ o. or_else o default) h) d
one_of_lem values default (some w) d h = elim (Bool-cases (is_in values w)) [
  | inl e ↦
      let same = rw e at h in
      subst (λ v. is_in values v ≡ true) (ap (λ o. or_else o default) same) e
  | inr e ↦ let wrong = rw e at h in absurd (cc)
]

-- What every accepted environment has: positive numbers, a secret, and values of the lists.
pub record IsAccepted (d : EnvData) : Type 0 where
  pub port : 1 ≤ d.port
  pub timeout : 1 ≤ d.session_timeout_minutes
  pub login_max : 1 ≤ d.login_rate_limit_max
  pub login_window : 1 ≤ d.login_rate_limit_window_minutes
  pub interval : 1 ≤ d.metrics_interval_seconds
  pub retention : 1 ≤ d.metrics_retention_days
  pub secret : str_eq d.session_secret "" ≡ false
  pub node_env : is_in node_envs d.node_env ≡ true
  pub cookie : is_in cookie_values d.cookie_secure ≡ true
  pub level : is_in log_levels d.log_level ≡ true

module _ (to_lower_case : String → String) (to_number : String → Option ℕ) where
  safe_parse-IsAccepted :
      (e : Environment) (d : EnvData) → safe_parse to_lower_case to_number e ≡ some d → IsAccepted d
  unfolding safe_parse
  safe_parse-IsAccepted e d h =
      let (port, a, h1) = bind_some (positive_int to_number 3000 e.port) _ h in
      let (node_env, b, h2) = bind_some (one_of node_envs "production" e.node_env) _ h1 in
      let (secret, c, h3) = bind_some (nonempty_text insecure_secret e.session_secret) _ h2 in
      let (timeout, f, h4) = bind_some (positive_int to_number 30 e.session_timeout_minutes) _ h3 in
      let (cookie, g, h5) = bind_some (one_of cookie_values "auto" e.cookie_secure) _ h4 in
      let (login_max, i, h6) = bind_some (positive_int to_number 5 e.login_rate_limit_max) _ h5 in
      let (login_window, j, h7) =
        bind_some (positive_int to_number 15 e.login_rate_limit_window_minutes) _ h6 in
      let (interval, k, h8) =
        bind_some (positive_int to_number 15 e.metrics_interval_seconds) _ h7 in
      let (retention, l, h9) = bind_some (positive_int to_number 7 e.metrics_retention_days) _ h8 in
      let (level, m, h10) = bind_some (one_of log_levels "info" e.log_level) _ h9 in
      subst IsAccepted (ap (λ o. or_else o d) h10) (record {
        port = positive_int_lem to_number 3000 e.port (omega arith) a;
        timeout = positive_int_lem to_number 30 e.session_timeout_minutes (omega arith) f;
        login_max = positive_int_lem to_number 5 e.login_rate_limit_max (omega arith) i;
        login_window =
            positive_int_lem to_number 15 e.login_rate_limit_window_minutes (omega arith) j;
        interval = positive_int_lem to_number 15 e.metrics_interval_seconds (omega arith) k;
        retention = positive_int_lem to_number 7 e.metrics_retention_days (omega arith) l;
        secret = nonempty_text_lem insecure_secret e.session_secret refl c;
        node_env = one_of_lem node_envs "production" e.node_env refl b;
        cookie = one_of_lem cookie_values "auto" e.cookie_secure refl g;
        level = one_of_lem log_levels "info" e.log_level refl m;
      })

password_given : (o : Option String) → given_password o ≡ some "" → ⊥
password_given none h = cc
password_given (some p) h = elim (Bool-cases (str_eq p "")) [
  | inl e ↦ let wrong = rw e at h in cc
  | inr e ↦ let same = rw e at h in absurd (differs (ap (λ o. or_else o p) same) e)
]
  where
    differs : {p q : String} → p ≡ q → str_eq p q ≡ false → ⊥
    differs {p} {q} h e = let same = (str_eq_iff p q).1 h in cc

silent :
    (production insecure secure : Bool) (a b : String)
    → ((if not production
          then []
          else (if insecure then a ∷ [] else []) ++ (if secure then [] else b ∷ []))
        ≡ [])
      ↔ ((production ≡ false) ⊎ ((insecure ≡ false) × (secure ≡ true)))
silent false insecure secure a b = (λ h. inl refl, λ h. refl)
silent true true secure a b = ground arith
silent true false true a b = (λ h. inr (refl, refl), λ h. refl)
silent true false false a b = ground arith

secure_cookie :
    (d : EnvData)
    → (cookie_is_secure d ≡ true) ↔ (
        (str_eq d.cookie_secure "true" ≡ true)
        ⊎ ((str_eq d.cookie_secure "auto" ≡ true) × (d.trust_proxy ≡ true)))
secure_cookie d =
    let other : str_eq d.cookie_secure "true" ≡ true → str_eq d.cookie_secure "auto" ≡ false =
      λ h. ap (λ s. str_eq s "auto") ((str_eq_iff d.cookie_secure "true").0 h) in
    ground (arith, other)

module _ (to_lower_case : String → String) (to_number : String → Option ℕ)
    (resolve : String → String) where
  -- An environment that is accepted gives a session at least a minute, a login window of at least a minute
  -- and samples at most one a second, a secret that is not empty, and no empty password of the
  -- administrator; the cookie is secure exactly where that is demanded, or left to a proxy that is
  -- trusted; and nothing is warned of exactly outside of production, or with a secret other than the
  -- default and a secure cookie.
  pub accepted_config :
      (e : Environment) (d : EnvData)
      → safe_parse to_lower_case to_number e ≡ some d
      → let c = config_of resolve d in
        (60000 ≤ c.timeout_ms)
        × (60000 ≤ c.login_window_ms)
        × (1000 ≤ c.interval_ms)
        × (str_eq d.session_secret "" ≡ false)
        × (c.admin_password ≡ some "" → ⊥)
        × ((c.cookie_secure ≡ true) ↔ (
            (str_eq d.cookie_secure "true" ≡ true)
            ⊎ ((str_eq d.cookie_secure "auto" ≡ true) × (d.trust_proxy ≡ true))))
        × ((assert_production_safety c ≡ []) ↔ (
            (c.is_production ≡ false)
            ⊎ ((str_eq d.session_secret insecure_secret ≡ false) × (c.cookie_secure ≡ true))))
  unfolding config_of assert_production_safety
  accepted_config e d h =
      let s = safe_parse-IsAccepted to_lower_case to_number e d h in
      (
        omega (arith, s.timeout),
        omega (arith, s.login_window),
        omega (arith, s.interval),
        s.secret,
        password_given d.admin_password,
        secure_cookie d,
        silent (is_production d) (str_eq d.session_secret insecure_secret) (cookie_is_secure d) _ _,
      )
