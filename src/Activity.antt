-- ===== src/Activity.antt =====
-- The audit log: src/repositories/activity.repository.ts and src/services/activity.service.ts.
-- `created_at` is a number of seconds, whose order is that of SQLite's texts; limits and offsets
-- are not negative, as the request schema demands.
pub mod Paging
pub mod Retention
pub mod Answer
use pm2manager.Common.{
  ℕ, ◌+◌, ◌-◌, ◌*◌, ◌/◌, String, Bool, true, false, not, ◌&&◌, Option, none, some, List, [], ◌∷◌,
  ◌++◌, leb, ltb, ◌==◌, min, max, or_else, length, take, drop, filter, find, any, if◌then◌else◌,
}
use mathlib.Core.Logic.{ite}
use pm2manager.Common.Sort.{sort}
use pm2manager.Errors.{unexpected}
use pm2manager.Exec.{Exec, fail, pure, modify, gets, ◌>>=◌, ◌>>◌, when, try_catch}

pub data ActivityType : Type 0 where
  login_success login_failed logout twofa_enabled twofa_disabled password_changed user_created
        user_deleted settings_changed process_start process_stop process_restart process_reload
        process_delete process_start_all process_stop_all process_restart_all process_reload_all
        process_event :
      ActivityType

unfoldable pub ActivityType-discrete : Discrete ActivityType
ActivityType-discrete = hlevel

abbrev pub same_type : ActivityType → ActivityType → Bool
same_type a b = ite (ActivityType-discrete a b) true false

-- A value of a metadata object.
pub data MetaValue : Type 0 where
  text : String → MetaValue
  number : ℕ → MetaValue
  -- `negative n` is -(n + 1)
  negative : ℕ → MetaValue
  flag : Bool → MetaValue

-- Metadata is stored as JSON; the object is kept here instead of its text.
abbrev pub Metadata : Type 0
Metadata = List (String × MetaValue)

pub record ActivityRecord : Type 0 where
  pub id : ℕ
  pub type : ActivityType
  pub message : String
  pub username : Option String
  pub ip_address : Option String
  pub metadata : Option Metadata
  pub created_at : ℕ

-- The input of `record`, and of `create` after the missing fields are null.
pub record ActivityInput : Type 0 where
  pub type : ActivityType
  pub message : String
  pub username : Option String
  pub ip_address : Option String
  pub metadata : Option Metadata

pub record ActivityLog : Type 0 where
  pub rows : List ActivityRecord
  pub last_id : ℕ

pub record ActivityQuery : Type 0 where
  pub limit : Option ℕ
  pub offset : Option ℕ
  pub type : Option ActivityType
  pub types : List ActivityType

abbrev pub inserted : ℕ → ActivityInput → ActivityLog → ActivityRecord
inserted now input l = record {
  id = l.last_id + 1;
  type = input.type;
  message = input.message;
  username = input.username;
  ip_address = input.ip_address;
  metadata = input.metadata;
  created_at = now;
}

abbrev pub appended : ℕ → ActivityInput → ActivityLog → ActivityLog
appended now input l = record {
  rows = l.rows ++ inserted now input l ∷ [];
  last_id = l.last_id + 1;
}

-- `refused`: SQLite throws, as it does on a full disk or a database that stays locked.
unfoldable pub create : Bool → ℕ → ActivityInput → Exec ActivityLog (Option ActivityRecord)
create refused now input =
    when refused (fail (unexpected "SqliteError"))
      (modify (appended now input) >> gets (λ l. find (λ r. r.id == l.last_id) l.rows))

abbrev pub clamped_limit : Option ℕ → ℕ
clamped_limit limit = min (max (or_else limit 50) 1) 500

-- `if (query.type)` and `if (query.types && query.types.length > 0)`: no condition where missing.
abbrev pub of_type : Option ActivityType → ActivityRecord → Bool
of_type none r = true
of_type (some t) r = same_type r.type t

abbrev pub of_types : List ActivityType → ActivityRecord → Bool
of_types [] r = true
of_types (t ∷ ts) r = any (λ u. same_type r.type u) (t ∷ ts)

abbrev pub matching : ActivityQuery → ActivityRecord → Bool
matching q r = of_type q.type r && of_types q.types r

abbrev pub newer : ActivityRecord → ActivityRecord → Bool
newer a b = leb b.id a.id

-- WHERE ... ORDER BY id DESC
unfoldable pub selected : ActivityQuery → ActivityLog → List ActivityRecord
unfolding sort ActivityType-discrete
selected q l = sort newer (filter (matching q) l.rows)

-- LIMIT ? OFFSET ?
unfoldable pub list : ActivityQuery → ActivityLog → List ActivityRecord
unfolding selected
list q l = take (clamped_limit q.limit) (drop (or_else q.offset 0) (selected q l))

unfoldable pub count : Option ActivityType → ActivityLog → ℕ
unfolding ActivityType-discrete
count type l = length (filter (of_type type) l.rows)

-- The rows that stay, and how many went.
unfoldable pub delete_older_than : ℕ → ActivityLog → ℕ × ActivityLog
delete_older_than cutoff l = (
  length (filter (λ r. ltb r.created_at cutoff) l.rows),
  record l { rows = filter (λ r. not (ltb r.created_at cutoff)) l.rows },
)

-- `record`: a failure is logged and swallowed.
unfoldable pub record_activity : Bool → ℕ → ActivityInput → Exec ActivityLog (Unit {0})
unfolding create
record_activity refused now input = try_catch (create refused now input >> pure tt) (λ e. pure tt)

abbrev pub all_activity : ActivityQuery
all_activity = record { limit = none; offset = none; type = none; types = [] }

unfoldable pub recent : ℕ → ActivityLog → List ActivityRecord
unfolding list
recent limit l = list (record all_activity { limit = some limit }) l

abbrev pub restart_types : List ActivityType
restart_types = process_restart ∷ process_reload ∷ process_restart_all ∷ process_reload_all ∷ []

unfoldable pub recent_restarts : ℕ → ActivityLog → List ActivityRecord
unfolding list
recent_restarts limit l = list (record all_activity { limit = some limit; types = restart_types }) l

-- The cutoff in whole seconds: the ISO text is cut to 19 characters. A cutoff before 1970 is below
-- every row, as 0 is.
unfoldable pub prune : ℕ → ℕ → ActivityLog → ℕ × ActivityLog
unfolding delete_older_than
prune now_ms days l = delete_older_than ((now_ms - days * 24 * 60 * 60 * 1000) / 1000) l
