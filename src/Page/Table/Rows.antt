-- ===== src/Page/Table/Rows.antt =====
-- What the process table shows, and in which order.
use pm2manager.Common.{ℕ, String, Bool, ◌&&◌, List}
use pm2manager.Pm2.Normalise.{ProcessSummary}
use pm2manager.Page.Table.{ProcSort, in_order}

module _ (lower_case : String → List ℕ) where
  -- The rows between which the sorting makes no difference.
  abbrev pub ties : ProcSort → ProcessSummary → ProcessSummary → Bool
  ties s a b = in_order lower_case s a b && in_order lower_case s b a
