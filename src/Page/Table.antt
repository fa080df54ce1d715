-- ===== src/Page/Table.antt =====
-- The process table of the page (public/static/js/app.js): which rows it shows, in which order. How a
-- text is lower-cased is a parameter, and texts are compared by their code units.
pub mod Rows
use pm2manager.Common.{
  ℕ, String, Bool, true, false, not, ◌&&◌, ◌||◌, List, [], ◌∷◌, filter, leb, ◌==◌, length, str_eq,
  if◌then◌else◌,
}
use pm2manager.Common.Sort.{sort}
use pm2manager.Users.Order.{codes_le}
use pm2manager.Pm2.Normalise.{ProcessSummary}

pub data SortKey : Type 0 where
  status name cpu memory uptime restart_count : SortKey

pub data Direction : Type 0 where
  asc desc : Direction

-- `procSort`
pub record ProcSort : Type 0 where
  pub key : SortKey
  pub dir : Direction

-- `procFilter`; a status of `all` filters nothing.
pub record ProcFilter : Type 0 where
  pub search : String
  pub status_of : String

abbrev pub status_class : String → String
status_class s =
    if str_eq s "online"
    then "online"
    else if str_eq s "errored"
    then "errored"
    else if str_eq s "launching" || str_eq s "stopping" || str_eq s "one-launch-status"
    then "launching"
    else "stopped"

abbrev pub begins_with : List ℕ → List ℕ → Bool
begins_with [] ys = true
begins_with (x ∷ xs) [] = false
begins_with (x ∷ xs) (y ∷ ys) = x == y && begins_with xs ys

-- `text.indexOf(part) !== -1`
abbrev pub contains : List ℕ → List ℕ → Bool
contains part [] = begins_with part []
contains part (c ∷ cs) = begins_with part (c ∷ cs) || contains part cs

abbrev pub is_textual : SortKey → Bool
is_textual status = true
is_textual name = true
is_textual _ = false

abbrev pub number_in : SortKey → ProcessSummary → ℕ
number_in cpu p = p.cpu
number_in memory p = p.memory
number_in uptime p = p.uptime
number_in restart_count p = p.restart_count
number_in _ p = 0

abbrev pub text_in : SortKey → ProcessSummary → String
text_in status p = p.status
text_in _ p = p.name

module _ (lower_case : String → List ℕ) where
  -- The rows that the filter lets pass.
  abbrev pub visible : ProcFilter → ProcessSummary → Bool
  visible f p =
      (str_eq f.status_of "all" || str_eq (status_class p.status) f.status_of)
      && contains (lower_case f.search) (lower_case p.name)

  -- What the comparison does not put after: in rising order of the key.
  abbrev pub rising : SortKey → ProcessSummary → ProcessSummary → Bool
  rising key a b =
      if is_textual key
      then codes_le (lower_case (text_in key a)) (lower_case (text_in key b))
      else leb (number_in key a) (number_in key b)

  abbrev pub in_direction : Direction → SortKey → ProcessSummary → ProcessSummary → Bool
  in_direction asc key a b = rising key a b
  in_direction desc key a b = rising key b a

  abbrev pub in_order : ProcSort → ProcessSummary → ProcessSummary → Bool
  in_order s a b = in_direction s.dir s.key a b

  unfoldable pub sorted_filtered : ProcSort → ProcFilter → List ProcessSummary → List ProcessSummary
  unfolding sort
  sorted_filtered s f processes = sort (in_order s) (filter (visible f) processes)

abbrev pub flipped : Direction → Direction
flipped asc = desc
flipped desc = asc

abbrev pub column : SortKey → ℕ
column status = 0
column name = 1
column cpu = 2
column memory = 3
column uptime = 4
column restart_count = 5

-- A click on the header of a column.
unfoldable pub click : SortKey → ProcSort → ProcSort
click k s =
    if column s.key == column k
    then record s { dir = flipped s.dir }
    else record { key = k; dir = if is_textual k then asc else desc }
