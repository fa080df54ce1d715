-- ===== src/Page/Activity.antt =====
-- The activity view of the page (public/static/js/app.js): its pages, and the buttons that turn them.
pub mod Reading
use pm2manager.Common.{
  ℕ, zero, suc, ◌+◌, ◌-◌, ◌/◌, max, Bool, true, false, Option, none, some, List, [], ◌∷◌, leb, ltb,
  ◌==◌, if◌then◌else◌,
}
use pm2manager.Activity.{ActivityRecord, ActivityType, ActivityLog}
use pm2manager.Activity.Answer.{ActivityAnswer, answer_of}

-- `activityOffset` and `activityType`.
pub record Paging : Type 0 where
  pub activity_offset : ℕ
  pub activity_type : Option ActivityType

pub record ActivityView : Type 0 where
  pub items : List ActivityRecord
  pub page_number : ℕ
  pub page_count : ℕ
  pub prev_disabled : Bool
  pub next_disabled : Bool

abbrev pub page_size : ℕ
page_size = 25

-- `data.limit || 25`
abbrev pub limit_of : ℕ → ℕ
limit_of limit = if limit == 0 then page_size else limit

-- `Math.ceil(total / limit)`
abbrev pub ceil_div : ℕ → ℕ → ℕ
ceil_div total limit = (total + (limit - 1)) / limit

unfoldable pub view_of : ActivityAnswer → ActivityView
view_of a = record {
  items = a.items;
  page_number = a.offset / limit_of a.limit + 1;
  page_count = max 1 (ceil_div a.total (limit_of a.limit));
  prev_disabled = leb a.offset 0;
  next_disabled = leb a.total (a.offset + limit_of a.limit);
}

-- `loadActivity`, answered at once.
unfoldable pub load_activity : Paging → ActivityLog → ActivityView
unfolding view_of
load_activity s l = view_of (answer_of page_size s.activity_offset s.activity_type l)

abbrev pub next : Paging → Paging
next s = record s { activity_offset = s.activity_offset + page_size }

abbrev pub prev : Paging → Paging
prev s =
    if ltb 0 s.activity_offset
    then record s { activity_offset = max 0 (s.activity_offset - page_size) }
    else s

abbrev pub filter_by : Option ActivityType → Paging → Paging
filter_by type s = record { activity_offset = 0; activity_type = type }

-- What a user sees who turns the pages until the button is disabled, on fuel.
unfoldable pub read_on : ℕ → Paging → ActivityLog → List ActivityView
read_on zero s l = []
read_on (suc n) s l =
    let rest = read_on n (next s) l in
    let v = load_activity s l in v ∷ (if v.next_disabled then [] else rest)
