-- ===== src/Users/Order.antt =====
-- The order of texts under `ORDER BY`: by code points, a prefix first.
use pm2manager.Common.{
  ℕ, Bool, true, false, List, [], ◌∷◌, ◌≡◌, refl, arith, ltb, ◌==◌, if◌then◌else◌,
}

unfoldable pub codes_le : List ℕ → List ℕ → Bool
codes_le [] ys = true
codes_le (x ∷ xs) [] = false
codes_le (x ∷ xs) (y ∷ ys) =
    let rest = codes_le xs ys in if ltb x y then true else if x == y then rest else false

pub codes_le-total : (xs ys : List ℕ) → codes_le xs ys ≡ false → codes_le ys xs ≡ true
unfolding codes_le
codes_le-total [] ys h = cc
codes_le-total (x ∷ xs) [] h = refl
codes_le-total (x ∷ xs) (y ∷ ys) h = ground (arith, codes_le-total xs ys)

pub codes_le_trans :
    (xs ys zs : List ℕ) → codes_le xs ys ≡ true → codes_le ys zs ≡ true → codes_le xs zs ≡ true
unfolding codes_le
codes_le_trans [] ys zs h k = refl
codes_le_trans (x ∷ xs) [] zs h k = cc
codes_le_trans (x ∷ xs) (y ∷ ys) [] h k = cc
codes_le_trans (x ∷ xs) (y ∷ ys) (z ∷ zs) h k = ground (arith, codes_le_trans xs ys zs)
