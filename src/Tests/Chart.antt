-- ===== src/Tests/Chart.antt =====
-- The point next to the mouse.
use pm2manager.Common.{ℕ, zero, suc, arith, ◌≡◌, refl, List, [], ◌∷◌}
use pm2manager.Chart.{nearest_index}
use pm2manager.Chart.Nearest.{IsOrdered, IsNearest, nearest_index-IsNearest}

abbrev positions : List ℕ
positions = 10 ∷ 20 ∷ 40 ∷ []

-- Halfway between two points the earlier is taken.
halfway : nearest_index positions 30 ≡ 1
unfolding nearest_index
halfway = refl

positions-IsOrdered : IsOrdered positions
positions-IsOrdered zero zero l h = omega arith
positions-IsOrdered zero (suc zero) l h = omega arith
positions-IsOrdered zero (suc (suc zero)) l h = omega arith
positions-IsOrdered (suc zero) zero l h = omega arith
positions-IsOrdered (suc zero) (suc zero) l h = omega arith
positions-IsOrdered (suc zero) (suc (suc zero)) l h = omega arith
positions-IsOrdered (suc (suc zero)) zero l h = absurd (omega arith)
positions-IsOrdered (suc (suc zero)) (suc zero) l h = absurd (omega arith)
positions-IsOrdered (suc (suc zero)) (suc (suc zero)) l h = omega arith
positions-IsOrdered (suc (suc (suc i))) j l h = absurd (omega (arith, l, h))
positions-IsOrdered i (suc (suc (suc j))) l h = absurd (omega (arith, h))

nearest_index-IsNearest_example : IsNearest positions 33 (nearest_index positions 33)
nearest_index-IsNearest_example =
    nearest_index-IsNearest positions 33 positions-IsOrdered (omega arith)
