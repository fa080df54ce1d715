-- ===== src/Tests/Config.antt =====
-- The configuration.
use pm2manager.Common.{
  ◌≡◌, refl, ◌≤◌, ◌↔◌, ◌⊎◌, String, true, false, none, some, [], str_eq, if◌then◌else◌,
}
use pm2manager.Config.{
  Environment, EnvData, safe_parse, config_of, assert_production_safety, insecure_secret,
}
use pm2manager.Config.Safety.{accepted_config}

abbrev behind_proxy : Environment
behind_proxy = record {
  host = none;
  port = none;
  node_env = none;
  trust_proxy = some "Yes";
  session_secret = some "s3cret";
  session_timeout_minutes = none;
  cookie_secure = none;
  login_rate_limit_max = none;
  login_rate_limit_window_minutes = none;
  totp_issuer = none;
  database_path = none;
  metrics_interval_seconds = none;
  metrics_retention_days = none;
  log_level = none;
  admin_username = none;
  admin_password = some "";
}

abbrev lower_case : String → String
lower_case s = if str_eq s "Yes" then "yes" else s

abbrev data_of_proxy : EnvData
data_of_proxy = record {
  host = "127.0.0.1";
  port = 3000;
  node_env = "production";
  trust_proxy = true;
  session_secret = "s3cret";
  session_timeout_minutes = 30;
  cookie_secure = "auto";
  login_rate_limit_max = 5;
  login_rate_limit_window_minutes = 15;
  totp_issuer = "PM2 Manager";
  database_path = "./data/pm2manager.sqlite";
  metrics_interval_seconds = 15;
  metrics_retention_days = 7;
  log_level = "info";
  admin_username = "admin";
  admin_password = some "";
}

proxy_accepted : safe_parse lower_case (λ s. none) behind_proxy ≡ some data_of_proxy
unfolding safe_parse
proxy_accepted = refl

accepted_config_example :
    let c = config_of (λ p. p) data_of_proxy in
    (60000 ≤ c.timeout_ms)
    × (60000 ≤ c.login_window_ms)
    × (1000 ≤ c.interval_ms)
    × (str_eq "s3cret" "" ≡ false)
    × (c.admin_password ≡ some "" → ⊥)
    × ((c.cookie_secure ≡ true)
        ↔ ((str_eq "auto" "true" ≡ true) ⊎ ((str_eq "auto" "auto" ≡ true) × (true ≡ true))))
    × ((assert_production_safety c ≡ []) ↔ (
        (c.is_production ≡ false)
        ⊎ ((str_eq "s3cret" insecure_secret ≡ false) × (c.cookie_secure ≡ true))))
accepted_config_example =
    accepted_config lower_case (λ s. none) (λ p. p) behind_proxy data_of_proxy proxy_accepted
