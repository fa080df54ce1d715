-- ===== src/Common/Slices.antt =====
-- Taking and dropping, as `slice` and `splice` do.
use mathlib.Core.Path.{◌≡◌, refl, ap}
use mathlib.Core.List.{List, [], ◌∷◌, ◌++◌}
use native.Mathlib.Omega.{arith}
use Prim.Native.Nat.{ℕ, zero, suc, ◌+◌, ◌-◌}
use pm2manager.Common.Lists.{length, take, drop}

pub length-drop {ℓ} : {A : Type ℓ} (n : ℕ) (xs : List A) → length (drop n xs) ≡ length xs - n
length-drop zero xs = omega arith
length-drop (suc n) [] = omega arith
length-drop (suc n) (x ∷ xs) = omega (arith, length-drop n xs)

pub take-drop {ℓ} : {A : Type ℓ} (n : ℕ) (xs : List A) → take n xs ++ drop n xs ≡ xs
take-drop zero xs = refl
take-drop (suc n) [] = refl
take-drop (suc n) (x ∷ xs) = ap (λ ys. x ∷ ys) (take-drop n xs)

module _ {ℓ} {A : Type ℓ} where
  pub drop-drop : (k m : ℕ) (xs : List A) → drop m (drop k xs) ≡ drop (k + m) xs
  drop-drop zero m xs = let e : 0 + m ≡ m = omega arith in rw e refl
  drop-drop (suc k) m [] = drop_nil m
    where
      drop_nil : (m : ℕ) → drop {A = A} m [] ≡ drop (suc k + m) []
      drop_nil zero = let e : suc k + 0 ≡ suc k = omega arith in rw e refl
      drop_nil (suc m) = let e : suc k + suc m ≡ suc (k + suc m) = omega arith in rw e refl
  drop-drop (suc k) m (x ∷ xs) =
      let e : suc k + m ≡ suc (k + m) = omega arith in rw e (drop-drop k m xs)
