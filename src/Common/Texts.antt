-- ===== src/Common/Texts.antt =====
-- Texts as the program compares them: exactly, and without regard to ASCII case.
use Prim.Native.Nat.{ℕ, ◌+◌}
use Prim.Native.Char.{code}
use Prim.Native.String.{String, ◌++◌ as append_text}
use mathlib.Core.Path.{◌≡◌}
use mathlib.Core.Logic.{◌↔◌}
use mathlib.Core.Bool.{Bool, true, false, ◌&&◌}
use mathlib.Core.Option.{Option, none, some}
use mathlib.Core.List.{List, [], ◌∷◌}
use native.Mathlib.Omega.{arith}
use pm2manager.Common.Tests.{leb, ◌==◌, if◌then◌else◌}
pub use text.Mathlib.Text.{◌==◌ as str_eq}
pub use text.Mathlib.TextEquality.{eq_iff as str_eq_iff}
pub use text.Mathlib.TextPositions.{eq_refl as str_eq_refl}

-- The code points of a text.
abbrev pub codes : String → List ℕ
codes String.[] = []
codes (String.◌∷◌ c s) = code c ∷ codes s

-- ASCII lower case, as `COLLATE NOCASE` and LIKE fold it.
unfoldable pub lower : ℕ → ℕ
lower c = if leb b'A' c && leb c b'Z' then c + 32 else c

unfoldable pub fold_case : List ℕ → List ℕ
unfolding lower
fold_case [] = []
fold_case (c ∷ cs) = lower c ∷ fold_case cs

unfoldable pub codes_eq : List ℕ → List ℕ → Bool
codes_eq [] [] = true
codes_eq (a ∷ as') (b ∷ bs) = a == b && codes_eq as' bs
codes_eq _ _ = false

pub codes_eq_iff : (xs ys : List ℕ) → (codes_eq xs ys ≡ true) ↔ (xs ≡ ys)
unfolding codes_eq
codes_eq_iff [] [] = ground arith
codes_eq_iff [] (y ∷ ys) = ground arith
codes_eq_iff (x ∷ xs) [] = ground arith
codes_eq_iff (x ∷ xs) (y ∷ ys) = ground (arith, codes_eq_iff xs ys)

-- A template literal with one value: `before${value}after`.
abbrev pub template : String → String → String → String
template before value after = append_text before (append_text value after)

-- `!s`, for a text that may be missing: null and the empty text are falsy.
abbrev pub is_blank : Option String → Bool
is_blank none = true
is_blank (some s) = str_eq s ""
