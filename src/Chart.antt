-- ===== src/Chart.antt =====
-- The point of a chart next to the mouse (`nearestIndex` of public/static/js/chart.js). Positions
-- are counted in a unit so small that each of them, and the one under the mouse, is a whole number,
-- and differences are exact. The drawing is left out.
pub mod Nearest
use pm2manager.Common.{
  ℕ, zero, suc, ◌+◌, ◌-◌, ◌/◌, Bool, ◌&&◌, List, length, ltb, leb, or_else, if◌then◌else◌,
}
use pm2manager.Pm2.Connection.{get_elem?}

-- `data[i].x`
abbrev pub x_at : List ℕ → ℕ → ℕ
x_at data_xs i = or_else (get_elem? data_xs i) 0

-- `Math.abs(a - b)`
abbrev pub distance : ℕ → ℕ → ℕ
distance a b = (a - b) + (b - a)

-- The loop, on fuel, from `lo` and `hi`.
unfoldable pub search : List ℕ → (xv fuel lo hi : ℕ) → ℕ
search data_xs xv zero lo hi = lo
search data_xs xv (suc n) lo hi =
    let mid = (lo + hi) / 2 in
    let low = ltb (x_at data_xs mid) xv in
    let rest = search data_xs xv n (if low then mid + 1 else lo) (if low then hi else mid) in
    if ltb lo hi then rest else lo

-- What is left when the loop has found the first point that is not before the mouse.
abbrev pub closer : List ℕ → (xv lo : ℕ) → ℕ
closer data_xs xv lo =
    if ltb 0 lo && leb (distance (x_at data_xs (lo - 1)) xv) (distance (x_at data_xs lo) xv)
    then lo - 1
    else lo

-- The callers see to it that there is a point.
unfoldable pub nearest_index : List ℕ → (xv : ℕ) → ℕ
unfolding search
nearest_index data_xs xv =
    let hi = length data_xs - 1 in
    if leb xv (x_at data_xs 0)
    then 0
    else if leb (x_at data_xs hi) xv
    then hi
    else closer data_xs xv (search data_xs xv hi 0 hi)
