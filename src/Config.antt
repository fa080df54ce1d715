-- ===== src/Config.antt =====
-- The configuration (src/config/index.ts). The variables of the environment, after dotenv, are texts that
-- may be missing; how `Number` reads a text as a whole number, how a text is lower-cased and how a path is
-- resolved are parameters, as zod and node have them.
pub mod Safety
use pm2manager.Common.{
  ℕ, ◌*◌, String, Bool, true, false, not, Option, none, some, List, [], ◌∷◌, ◌++◌, any, ltb, str_eq,
  or_else, if◌then◌else◌,
}

pub record Environment : Type 0 where
  pub host : Option String
  pub port : Option String
  pub node_env : Option String
  pub trust_proxy : Option String
  pub session_secret : Option String
  pub session_timeout_minutes : Option String
  pub cookie_secure : Option String
  pub login_rate_limit_max : Option String
  pub login_rate_limit_window_minutes : Option String
  pub totp_issuer : Option String
  pub database_path : Option String
  pub metrics_interval_seconds : Option String
  pub metrics_retention_days : Option String
  pub log_level : Option String
  pub admin_username : Option String
  pub admin_password : Option String

-- `parsed.data`
pub record EnvData : Type 0 where
  pub host : String
  pub port : ℕ
  pub node_env : String
  pub trust_proxy : Bool
  pub session_secret : String
  pub session_timeout_minutes : ℕ
  pub cookie_secure : String
  pub login_rate_limit_max : ℕ
  pub login_rate_limit_window_minutes : ℕ
  pub totp_issuer : String
  pub database_path : String
  pub metrics_interval_seconds : ℕ
  pub metrics_retention_days : ℕ
  pub log_level : String
  pub admin_username : String
  pub admin_password : Option String

abbrev pub insecure_secret : String
insecure_secret = "insecure-dev-secret-change-me"

abbrev pub truthy_texts : List String
truthy_texts = "1" ∷ "true" ∷ "yes" ∷ "on" ∷ []

-- `booleanish`
abbrev pub booleanish : (String → String) → Bool → Option String → Bool
booleanish to_lower_case default none = default
booleanish to_lower_case default (some v) =
    if str_eq v "" then default else any (λ t. str_eq t (to_lower_case v)) truthy_texts

-- `z.enum(values).default(default)`
abbrev pub one_of : List String → String → Option String → Option String
one_of values default none = some default
one_of values default (some v) = if any (λ t. str_eq t v) values then some v else none

-- `.positive()`
abbrev pub positive : Option ℕ → Option ℕ
positive none = none
positive (some n) = if ltb 0 n then some n else none

-- `z.coerce.number().int().positive().default(default)`
abbrev pub positive_int : (String → Option ℕ) → ℕ → Option String → Option ℕ
positive_int to_number default none = some default
positive_int to_number default (some v) = positive (to_number v)

-- `z.string().min(1).default(default)`
abbrev pub nonempty_text : String → Option String → Option String
nonempty_text default none = some default
nonempty_text default (some v) = if str_eq v "" then none else some v

abbrev pub node_envs : List String
node_envs = "production" ∷ "development" ∷ "test" ∷ []

abbrev pub cookie_values : List String
cookie_values = "auto" ∷ "true" ∷ "false" ∷ []

abbrev pub log_levels : List String
log_levels = "fatal" ∷ "error" ∷ "warn" ∷ "info" ∷ "debug" ∷ "trace" ∷ "silent" ∷ []

infixl 5 ◌>>=◌
abbrev pub ◌>>=◌ : {A B : Type 0} → Option A → (A → Option B) → Option B
none >>= f = none
(some a) >>= f = f a

-- `envSchema.safeParse(process.env)`: none where it fails, and then the process exits with 1.
unfoldable pub safe_parse :
    (to_lower_case : String → String) (to_number : String → Option ℕ) → Environment → Option EnvData
safe_parse to_lower_case to_number e = do
  port ← positive_int to_number 3000 e.port
  node_env ← one_of node_envs "production" e.node_env
  session_secret ← nonempty_text insecure_secret e.session_secret
  session_timeout_minutes ← positive_int to_number 30 e.session_timeout_minutes
  cookie_secure ← one_of cookie_values "auto" e.cookie_secure
  login_rate_limit_max ← positive_int to_number 5 e.login_rate_limit_max
  login_rate_limit_window_minutes ← positive_int to_number 15 e.login_rate_limit_window_minutes
  metrics_interval_seconds ← positive_int to_number 15 e.metrics_interval_seconds
  metrics_retention_days ← positive_int to_number 7 e.metrics_retention_days
  log_level ← one_of log_levels "info" e.log_level
  some (record {
    host = or_else e.host "127.0.0.1";
    port = port;
    node_env = node_env;
    trust_proxy = booleanish to_lower_case false e.trust_proxy;
    session_secret = session_secret;
    session_timeout_minutes = session_timeout_minutes;
    cookie_secure = cookie_secure;
    login_rate_limit_max = login_rate_limit_max;
    login_rate_limit_window_minutes = login_rate_limit_window_minutes;
    totp_issuer = or_else e.totp_issuer "PM2 Manager";
    database_path = or_else e.database_path "./data/pm2manager.sqlite";
    metrics_interval_seconds = metrics_interval_seconds;
    metrics_retention_days = metrics_retention_days;
    log_level = log_level;
    admin_username = or_else e.admin_username "admin";
    admin_password = e.admin_password;
  })

abbrev pub is_production : EnvData → Bool
is_production e = str_eq e.node_env "production"

-- Whether the cookie of the session is only sent over TLS.
abbrev pub cookie_is_secure : EnvData → Bool
cookie_is_secure e =
    if str_eq e.cookie_secure "auto" then e.trust_proxy else str_eq e.cookie_secure "true"

abbrev pub given_password : Option String → Option String
given_password none = none
given_password (some p) = if str_eq p "" then none else some p

-- `config`, without the fields that are copied.
pub record AppConfig : Type 0 where
  pub env : EnvData
  pub is_production : Bool
  pub timeout_ms : ℕ
  pub cookie_secure : Bool
  pub login_window_ms : ℕ
  pub database_path : String
  pub interval_ms : ℕ
  pub admin_password : Option String

unfoldable pub config_of : (resolve : String → String) → EnvData → AppConfig
config_of resolve e = record {
  env = e;
  is_production = is_production e;
  timeout_ms = e.session_timeout_minutes * 60 * 1000;
  cookie_secure = cookie_is_secure e;
  login_window_ms = e.login_rate_limit_window_minutes * 60 * 1000;
  database_path = resolve e.database_path;
  interval_ms = e.metrics_interval_seconds * 1000;
  admin_password = given_password e.admin_password;
}

abbrev pub secret_warnings : EnvData → List String
secret_warnings e =
    if str_eq e.session_secret insecure_secret
    then "SESSION_SECRET is using the insecure default. Set a strong SESSION_SECRET in production."
      ∷ []
    else []

abbrev pub cookie_warnings : Bool → List String
cookie_warnings secure =
    if secure
    then []
    else "Session cookie is not marked Secure. Serve the app over HTTPS and set TRUST_PROXY=true / COOKIE_SECURE=true."
      ∷ []

-- `assertProductionSafety`: what it hands to `logWarn`.
unfoldable pub assert_production_safety : AppConfig → List String
assert_production_safety c =
    if not c.is_production then [] else secret_warnings c.env ++ cookie_warnings c.cookie_secure
