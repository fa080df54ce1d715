-- ===== src/Pm2/Normalise.antt =====
-- Normalising PM2's process descriptions (src/services/pm2.service.ts). `cpu` is in tenths of a
-- percent, as PM2 rounds it; PM2 gives a text or nothing for the fields read by a cast to `string`.
use package.text.Mathlib.Text.{starts_with}
use pm2manager.Common.{
  ℕ, ◌-◌, String, Bool, true, false, not, ◌&&◌, Option, none, some, List, [], ◌∷◌, any, ltb, ◌==◌,
  str_eq, or_else, if◌then◌else◌,
}
use pm2manager.Common.Int.{ℤ, pos, negsuc}

-- A value of the loosely typed `pm2_env`; an array holds its elements as `String(v)` gives them, and
-- a number its own text.
pub data Raw : Type 0 where
  text : String → Raw
  number : (value : ℕ) (printed : String) → Raw
  boolean : Bool → Raw
  array : List String → Raw
  null : Raw
  object : Raw

abbrev pub RawEnv : Type 0
RawEnv = List (String × Raw)

pub record ProcessDescription : Type 0 where
  pub pid : Option ℕ
  pub name : Option String
  pub pm_id : Option ℕ
  pub cpu : Option ℕ
  pub memory : Option ℕ
  pub pm2_env : Option RawEnv

pub record ProcessSummary : Type 0 where
  pub pm_id : ℤ
  pub name : String
  pub namespace : String
  pub status : String
  pub pid : Option ℕ
  pub cpu : ℕ
  pub memory : ℕ
  pub uptime : ℕ
  pub pm_uptime : Option ℕ
  pub restart_count : ℕ
  pub unstable_restarts : ℕ
  pub instances : ℕ
  pub exec_mode : String
  pub version : Option String
  pub user : Option String
  pub watching : Bool
  pub autorestart : Bool

pub record ProcessDetail : Type 0 where
  pub summary : ProcessSummary
  pub script : Option String
  pub cwd : Option String
  pub interpreter : Option String
  pub node_args : List String
  pub args : List String
  pub exec_path : Option String
  pub out_log_path : Option String
  pub error_log_path : Option String
  pub pid_path : Option String
  pub created_at : Option ℕ
  pub env : List (String × String)

-- `env[key]`, `undefined` (here `null`) where there is no such key.
unfoldable pub get : String → RawEnv → Raw
get key [] = null
get key ((k, v) ∷ env) = if str_eq k key then v else get key env

abbrev pub env_blocklist : List String
env_blocklist =
    "name" ∷ "namespace" ∷ "version" ∷ "versioning" ∷ "status" ∷ "pm_id" ∷ "pm_pid_path"
    ∷ "pm_exec_path" ∷ "pm_cwd" ∷ "pm_out_log_path" ∷ "pm_err_log_path" ∷ "pm_uptime"
    ∷ "exec_interpreter" ∷ "exec_mode" ∷ "instances" ∷ "node_args" ∷ "args" ∷ "watch"
    ∷ "autorestart" ∷ "autostart" ∷ "vizion" ∷ "vizion_running" ∷ "merge_logs" ∷ "created_at"
    ∷ "restart_time" ∷ "unstable_restarts" ∷ "prev_restart_delay" ∷ "kill_retry_time"
    ∷ "windowsHide" ∷ "treekill" ∷ "automation" ∷ "pmx" ∷ "instance_var" ∷ "filter_env"
    ∷ "watch_options" ∷ "ignore_watch" ∷ "source_map_support" ∷ "disable_source_map_support"
    ∷ "username" ∷ "env" ∷ "command" ∷ "axm_actions" ∷ "axm_monitor" ∷ "axm_options" ∷ "axm_dynamic"
    ∷ "error" ∷ "started_inside" ∷ "wait_ready" ∷ "max_memory_restart" ∷ "min_uptime"
    ∷ "max_restarts" ∷ "restart_delay" ∷ "kill_timeout" ∷ "time" ∷ "exit_code" ∷ "unique_id"
    ∷ "node_version" ∷ "io" ∷ "PM2_HOME" ∷ []

abbrev pub env_prefix_blocklist : List String
env_prefix_blocklist = "pm_" ∷ "PM2_" ∷ "axm_" ∷ "km_" ∷ "_" ∷ []

unfoldable pub is_env_key : String → Bool
is_env_key key =
    if any (λ b. str_eq b key) env_blocklist
    then false
    else not (any (λ p. starts_with key p) env_prefix_blocklist)

-- `String(value)` of a text, a number or a boolean; nothing else is kept.
abbrev pub printed_value : Raw → Option String
printed_value (text s) = some s
printed_value (number n s) = some s
printed_value (boolean b) = some (if b then "true" else "false")
printed_value _ = none

abbrev kept : String → Option String → List (String × String) → List (String × String)
kept key none rest = rest
kept key (some s) rest = if is_env_key key then (key, s) ∷ rest else rest

unfoldable pub extract_env : RawEnv → List (String × String)
unfolding is_env_key
extract_env [] = []
extract_env ((key, value) ∷ env) = kept key (printed_value value) (extract_env env)

abbrev pub text_or_null : Raw → Option String
text_or_null (text s) = some s
text_or_null _ = none

-- `(v as string) ?? d`
abbrev pub text_or : Raw → String → String
text_or v d = or_else (text_or_null v) d

-- `typeof v === 'number' ? v : null`
abbrev pub number_or_null : Raw → Option ℕ
number_or_null (number n s) = some n
number_or_null _ = none

-- `Boolean(v)`
abbrev pub truthy : Raw → Bool
truthy (text s) = not (str_eq s "")
truthy (number n s) = not (n == 0)
truthy (boolean b) = b
truthy null = false
truthy _ = true

-- `v !== false`
abbrev pub not_false : Raw → Bool
not_false (boolean b) = b
not_false _ = true

-- `status === 'online' && pmUptime ? Math.max(0, now - pmUptime) : 0`
unfoldable pub uptime_of : ℕ → String → Option ℕ → ℕ
uptime_of now status none = 0
uptime_of now status (some started) =
    if str_eq status "online" && not (started == 0) then now - started else 0

abbrev pub positive : Option ℕ → Option ℕ
positive none = none
positive (some n) = if ltb 0 n then some n else none

abbrev pub id_or_minus_one : Option ℕ → ℤ
id_or_minus_one none = negsuc 0
id_or_minus_one (some n) = pos n

-- `a ?? b`
abbrev pub either_text : Option String → Option String → Option String
either_text none b = b
either_text (some a) b = some a

unfoldable pub to_process_summary : ℕ → ProcessDescription → ProcessSummary
unfolding get uptime_of
to_process_summary now desc =
    let env : RawEnv = or_else desc.pm2_env [] in
    let status : String = text_or (get "status" env) "unknown" in
    let pm_uptime : Option ℕ = number_or_null (get "pm_uptime" env) in
    record {
      pm_id = id_or_minus_one desc.pm_id;
      name = or_else desc.name "unknown";
      namespace = text_or (get "namespace" env) "default";
      status = status;
      pid = positive desc.pid;
      cpu = or_else desc.cpu 0;
      memory = or_else desc.memory 0;
      uptime = uptime_of now status pm_uptime;
      pm_uptime = pm_uptime;
      restart_count = or_else (number_or_null (get "restart_time" env)) 0;
      unstable_restarts = or_else (number_or_null (get "unstable_restarts" env)) 0;
      instances = or_else (number_or_null (get "instances" env)) 1;
      exec_mode = text_or (get "exec_mode" env) "fork";
      version = text_or_null (get "version" env);
      user = either_text (text_or_null (get "username" env)) (text_or_null (get "USER" env));
      watching = truthy (get "watch" env);
      autorestart = not_false (get "autorestart" env);
    }

abbrev pub to_string_array : Raw → List String
to_string_array (array xs) = xs
to_string_array (text s) = if str_eq s "" then [] else s ∷ []
to_string_array _ = []

unfoldable pub to_process_detail : ℕ → ProcessDescription → ProcessDetail
unfolding to_process_summary extract_env get
to_process_detail now desc =
    let env : RawEnv = or_else desc.pm2_env [] in
    record {
      summary = to_process_summary now desc;
      script = text_or_null (get "pm_exec_path" env);
      cwd = text_or_null (get "pm_cwd" env);
      interpreter = text_or_null (get "exec_interpreter" env);
      node_args = to_string_array (get "node_args" env);
      args = to_string_array (get "args" env);
      exec_path = text_or_null (get "pm_exec_path" env);
      out_log_path = text_or_null (get "pm_out_log_path" env);
      error_log_path = text_or_null (get "pm_err_log_path" env);
      pid_path = text_or_null (get "pm_pid_path" env);
      created_at = number_or_null (get "created_at" env);
      env = extract_env env;
    }
