-- ===== src/Settings/Effect.antt =====
-- What an update of the settings changes (src/controllers/settings.controller.ts).
use pm2manager.Common.{
  ℕ, ◌*◌, ◌≡◌, refl, ap, ◌∙◌, String, false, Option, none, some, List, [], ◌∷◌, ◌++◌, is_some,
  or_else, str_eq, str_eq_iff, str_eq_refl, if◌then◌else◌, Bool-cases, inl, inr,
}
use pm2manager.Exec.{ok}
use pm2manager.Http.{send_success}
use pm2manager.World.{Env}
use pm2manager.Admin.Audit.{audit_action_lem}
use pm2manager.Activity.{settings_changed}
use pm2manager.Settings.{
  Settings, get, set, Defaults, SettingsView, read_settings, Store, update_settings, key_interval,
  key_retention, to_number_or, written, store_settings, reschedule, change,
}
use pm2manager.Common.Numerals.{printed}
use pm2manager.Settings.Numbers.{number_of-printed}

get-set : (now : ℕ) (key : String) (v : List ℕ) (s : Settings) → get key (set now key v s) ≡ some v
unfolding get set
get-set now key v [] = rw (str_eq_refl key) refl
get-set now key v (r ∷ rs) = elim (Bool-cases (str_eq r.key key)) [
  | inl e ↦ rw e (rw e refl)
  | inr e ↦ rw e (rw e (get-set now key v rs))
]

get-set_other :
    (now : ℕ) (key other : String) (v : List ℕ) (s : Settings)
    → str_eq key other ≡ false
    → get other (set now key v s) ≡ get other s
unfolding get set
get-set_other now key other v [] h = rw h refl
get-set_other now key other v (r ∷ rs) h = elim (Bool-cases (str_eq r.key key)) [
  | inl e ↦
      let different : str_eq r.key other ≡ false =
        ap (λ k. str_eq k other) ((str_eq_iff r.key key).0 e) ∙ h in
      rw e (rw different refl)
  | inr e ↦ rw e (elim (Bool-cases (str_eq r.key other)) [
    | inl f ↦ rw f refl
    | inr f ↦ rw f (get-set_other now key other v rs h)
  ])
]

interval_stored :
    (now : ℕ) (d : Defaults) (interval retention : Option ℕ) (s : Settings) (fallback : ℕ)
    → to_number_or d (get key_interval (store_settings now interval retention s)) fallback
      ≡ or_else interval (to_number_or d (get key_interval s) fallback)
interval_stored now d none none s fallback = refl
interval_stored now d (some n) none s fallback =
    rw (get-set now key_interval (printed n) s, number_of-printed d.other_number n) refl
interval_stored now d none (some m) s fallback =
    rw (get-set_other now key_retention key_interval (printed m) s refl) refl
interval_stored now d (some n) (some m) s fallback =
    rw
      (
        get-set_other now key_retention key_interval (printed m)
            (written now key_interval (some n) s) refl,
        get-set now key_interval (printed n) s,
        number_of-printed d.other_number n,
      )
      refl

retention_stored :
    (now : ℕ) (d : Defaults) (interval retention : Option ℕ) (s : Settings) (fallback : ℕ)
    → to_number_or d (get key_retention (store_settings now interval retention s)) fallback
      ≡ or_else retention (to_number_or d (get key_retention s) fallback)
retention_stored now d none none s fallback = refl
retention_stored now d (some n) none s fallback =
    rw (get-set_other now key_interval key_retention (printed n) s refl) refl
retention_stored now d interval (some m) s fallback =
    rw
      (
        get-set now key_retention (printed m) (written now key_interval interval s),
        number_of-printed d.other_number m,
      )
      refl

-- The settings in effect after an update: the fields given, and the others as they were.
abbrev pub merged : Defaults → Option ℕ → Option ℕ → Settings → SettingsView
merged d interval retention s = record {
  metrics_interval_seconds = or_else interval (read_settings d s).metrics_interval_seconds;
  metrics_retention_days = or_else retention (read_settings d s).metrics_retention_days;
}

read_settings-stored :
    (now : ℕ) (d : Defaults) (interval retention : Option ℕ) (s : Settings)
    → read_settings d (store_settings now interval retention s) ≡ merged d interval retention s
unfolding read_settings
read_settings-stored now d interval retention s =
    rw
      (
        interval_stored now d interval retention s d.interval_seconds,
        retention_stored now d interval retention s d.retention_days,
      )
      refl

-- The period of the collector after an update: the interval in effect, if one was given and the
-- collector runs, and else as it was.
abbrev pub period : Defaults → Option ℕ → Store → Option ℕ
period d none s = s.collect_timer
period d (some n) s = if is_some s.collect_timer then some (n * 1000) else none

rescheduled :
    (d : Defaults) (now : ℕ) (interval retention : Option ℕ) (s : Store)
    → let stored = record s { settings = store_settings now interval retention s.settings } in
      let after = if is_some interval then reschedule d stored else stored in
      (after.collect_timer ≡ period d interval s) × (after.settings ≡ stored.settings)
unfolding reschedule
rescheduled d now none retention s = (refl, refl)
rescheduled d now (some n) retention s = timed s.collect_timer
  where
    timed :
        (o : Option ℕ)
        → let stored = record s {
          settings = store_settings now (some n) retention s.settings;
          collect_timer = o;
        } in
          ((reschedule d stored).collect_timer ≡ (if is_some o then some (n * 1000) else none))
          × ((reschedule d stored).settings ≡ stored.settings)
    timed none = (refl, refl)
    timed (some t) = (
      ap (λ k. some (k * 1000))
          (interval_stored now d (some n) retention s.settings d.interval_seconds),
      refl,
    )

-- An update of the settings answers with the settings then in effect, which are the fields given and
-- the others as they were; they are what is read from then on; and the period of the collector
-- becomes the interval given, in milliseconds, if it runs and one was given, and else stays.
pub update_settings-read_settings :
    (env : Env) (d : Defaults) (interval retention : Option ℕ) (s : Store)
    → let (out, after) = update_settings env d interval retention s in
      (out ≡ ok (send_success (merged d interval retention s.settings) 200))
      × (read_settings d after.settings ≡ merged d interval retention s.settings)
      × (after.collect_timer ≡ period d interval s)
unfolding update_settings
update_settings-read_settings env d interval retention s =
    let stored = record s { settings = store_settings env.now interval retention s.settings } in
    let next = if is_some interval then reschedule d stored else stored in
    let (timer, settings) = rescheduled d env.now interval retention s in
    let view =
      ap (read_settings d) settings
      ∙ read_settings-stored env.now d interval retention s.settings in
    rw
      (audit_action_lem env settings_changed "Updated application settings"
        (change key_interval interval ++ change key_retention retention) next.web)
      (ap (λ v. ok (send_success v 200)) view, view, timer)
