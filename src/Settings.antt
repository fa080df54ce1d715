-- ===== src/Settings.antt =====
-- The settings and the metrics service: src/repositories/settings.repository.ts,
-- src/controllers/settings.controller.ts and src/services/metrics.service.ts.
-- A stored value is the code points of its text.
pub mod Numbers
pub mod Effect
pub mod Sweep
use pm2manager.Common.{
  ℕ, ◌+◌, ◌-◌, ◌*◌, ◌/◌, max, String, Bool, true, false, not, Option, none, some, List, [], ◌∷◌,
  ◌++◌, map, filter, find, is_some, or_else, str_eq, if◌then◌else◌,
}
use pm2manager.Errors.{Failure}
use pm2manager.Exec.{
  Exec, Result, ok, err, pure, gets, modify, when, lift, focus, try_catch, ◌>>=◌, ◌>>◌,
}
use pm2manager.Http.{Response, send_success}
use pm2manager.Activity.{ActivityLog, Metadata, number, settings_changed, prune}
use pm2manager.World.{Env, World}
use pm2manager.Admin.{audit_action}
use pm2manager.Pm2.Normalise.{ProcessSummary}
use pm2manager.Metrics.{Metrics, MetricInput, insert_many, delete_older_than}
use pm2manager.Common.Numerals.{printed}
use pm2manager.Settings.Numbers.{number_of}

pub record SettingRecord : Type 0 where
  pub key : String
  pub value : List ℕ
  pub updated_at : ℕ

abbrev pub Settings : Type 0
Settings = List SettingRecord

unfoldable pub get : String → Settings → Option (List ℕ)
get key [] = none
get key (r ∷ rs) = let rest = get key rs in if str_eq r.key key then some r.value else rest

-- INSERT ... ON CONFLICT(key) DO UPDATE, at the time `now`
unfoldable pub set : ℕ → String → List ℕ → Settings → Settings
set now key value [] = record { key = key; value = value; updated_at = now } ∷ []
set now key value (r ∷ rs) =
    let rest = set now key value rs in
    if str_eq r.key key
    then record { key = r.key; value = value; updated_at = now } ∷ rs
    else r ∷ rest

unfoldable pub delete : String → Settings → Settings
delete key rs = filter (λ r. not (str_eq r.key key)) rs

abbrev pub key_interval : String
key_interval = "metricsIntervalSeconds"

abbrev pub key_retention : String
key_retention = "metricsRetentionDays"

-- The defaults, from the configuration, and `Number` of a text that no route stores.
pub record Defaults : Type 0 where
  pub interval_seconds : ℕ
  pub retention_days : ℕ
  pub other_number : List ℕ → Option ℕ

-- `toNumberOr` and `numberSetting`
abbrev pub to_number_or : Defaults → Option (List ℕ) → ℕ → ℕ
to_number_or d none fallback = fallback
to_number_or d (some raw) fallback = or_else (number_of d.other_number raw) fallback

pub record SettingsView : Type 0 where
  pub metrics_interval_seconds : ℕ
  pub metrics_retention_days : ℕ

unfoldable pub read_settings : Defaults → Settings → SettingsView
unfolding get number_of
read_settings d s = record {
  metrics_interval_seconds = to_number_or d (get key_interval s) d.interval_seconds;
  metrics_retention_days = to_number_or d (get key_retention s) d.retention_days;
}

-- `effectiveIntervalMs`
abbrev pub effective_interval_ms : Defaults → Settings → ℕ
effective_interval_ms d s = to_number_or d (get key_interval s) d.interval_seconds * 1000

-- `effectiveRetentionDays`, and `getRetentionDays`
abbrev pub effective_retention_days : Defaults → Settings → ℕ
effective_retention_days d s = to_number_or d (get key_retention s) d.retention_days

-- The handles of the timers, with their periods, the stored settings and the samples; and the tables
-- of the requests.
pub record Store : Type 0 where
  pub web : World
  pub settings : Settings
  pub metrics : Metrics
  pub collect_timer : Option ℕ
  pub retention_timer : Option ℕ

abbrev pub sample_at : ℕ → ProcessSummary → MetricInput
sample_at ts p = record {
  pm_id = p.pm_id;
  name = p.name;
  status = p.status;
  cpu = p.cpu;
  memory = p.memory;
  uptime = p.uptime;
  restart_count = p.restart_count;
  timestamp = ts;
}

-- The transaction, which SQLite may refuse; no samples are no transaction.
abbrev pub inserted : Option Failure → List MetricInput → Exec Store (Unit {0})
inserted refused [] = pure tt
inserted none (x ∷ xs) = modify (λ s. record s { metrics = insert_many (x ∷ xs) s.metrics })
inserted (some e) (x ∷ xs) = lift (err e)

-- What PM2 lists is a parameter.
unfoldable pub collect_once :
    ℕ → Result (List ProcessSummary) → Option Failure → Exec Store (Unit {0})
unfolding insert_many
collect_once ts listed refused =
    try_catch (do procs ← lift listed; inserted refused (map (sample_at ts) procs)) (λ e. pure tt)

-- The sweep, at a time in milliseconds.
unfoldable pub run_retention : Defaults → ℕ → Store → Store
unfolding delete_older_than prune get number_of
run_retention d now s =
    let days = effective_retention_days d s.settings in
    record s {
      metrics = (delete_older_than (now - days * 86400000) s.metrics).1;
      web = record s.web { log = (prune now (max (days * 4) 30) s.web.log).1 };
    }

abbrev pub retention_interval_ms : ℕ
retention_interval_ms = 3600000

-- The first collection is not waited for; it is a step of its own (`collect_once`).
unfoldable pub start : Defaults → Store → Store
unfolding get number_of
start d s = if is_some s.collect_timer then s else record s {
  collect_timer = some (effective_interval_ms d s.settings);
  retention_timer = some retention_interval_ms;
}

unfoldable pub reschedule : Defaults → Store → Store
unfolding get number_of
reschedule d s =
    if is_some s.collect_timer
    then record s { collect_timer = some (effective_interval_ms d s.settings) }
    else s

unfoldable pub stop : Store → Store
stop s = record s { collect_timer = none; retention_timer = none }

unfoldable pub get_settings : Defaults → Exec Store (Response SettingsView)
unfolding read_settings send_success
get_settings d s = pure (send_success (read_settings d s.settings) 200) s

-- A field that the body has is written.
abbrev pub written : ℕ → String → Option ℕ → Settings → Settings
written now key none s = s
written now key (some n) s = set now key (printed n) s

abbrev pub change : String → Option ℕ → Metadata
change key none = []
change key (some n) = (key, number n) ∷ []

abbrev pub store_settings : ℕ → Option ℕ → Option ℕ → Settings → Settings
store_settings now interval retention s =
    written now key_retention retention (written now key_interval interval s)

-- The collector is rescheduled where the interval was given.
unfoldable pub update_settings :
    Env → Defaults → Option ℕ → Option ℕ → Exec Store (Response SettingsView)
unfolding set printed send_success
update_settings env d interval retention = do
  modify (λ s. record s { settings = store_settings env.now interval retention s.settings })
  modify (λ s. if is_some interval then reschedule d s else s)
  focus (λ s. s.web) (λ w s. record s { web = w })
      (audit_action env settings_changed "Updated application settings"
        (change key_interval interval ++ change key_retention retention))
  view ← gets (λ s. read_settings d s.settings)
  pure (send_success view 200)
