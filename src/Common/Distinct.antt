-- ===== src/Common/Distinct.antt =====
-- The texts of a list without those seen before: SELECT DISTINCT, and a loop over a table of what was seen.
use mathlib.Core.Bool.{Bool, true, false, not, ◌&&◌, ◌||◌}
use mathlib.Core.Path.{◌≡◌, refl, ap, sym, ◌∙◌}
use mathlib.Core.Logic.{inl, inr}
use mathlib.Core.List.{List, [], ◌∷◌}
use native.Mathlib.Omega.{arith}
use Prim.Native.Nat.{ℕ}
use pm2manager.Common.Lists.{any, length, filter}
use Prim.Native.String.{String}
use pm2manager.Common.Texts.{str_eq, str_eq_iff}
use pm2manager.Common.Tests.{Bool-cases, if◌then◌else◌}

unfoldable pub unseen : (String → Bool) → List String → List String
unseen seen [] = []
unseen seen (n ∷ ns) =
    let others = unseen seen ns in
    let rest = unseen (λ m. seen m || str_eq m n) ns in if seen n then others else n ∷ rest

-- How often a text is listed.
abbrev pub times : String → List String → ℕ
times n ns = length (filter (λ m. str_eq m n) ns)

abbrev pub is_listed : String → List String → Bool
is_listed n ns = any (λ m. str_eq m n) ns

str_eq_sym : (m n : String) → str_eq m n ≡ str_eq n m
str_eq_sym m n =
    let to : str_eq m n ≡ true → str_eq n m ≡ true =
      λ e. (str_eq_iff n m).1 (sym ((str_eq_iff m n).0 e)) in
    let from : str_eq n m ≡ true → str_eq m n ≡ true =
      λ e. (str_eq_iff m n).1 (sym ((str_eq_iff n m).0 e)) in
    ground (arith, to, from)

unseen-old :
    (seen : String → Bool) (m : String) (ns : List String)
    → seen m ≡ true
    → unseen seen (m ∷ ns) ≡ unseen seen ns
unfolding unseen
unseen-old seen m ns h = rw h refl

unseen-new :
    (seen : String → Bool) (m : String) (ns : List String)
    → seen m ≡ false
    → unseen seen (m ∷ ns) ≡ m ∷ unseen (λ k. seen k || str_eq k m) ns
unfolding unseen
unseen-new seen m ns h = rw h refl

-- Each text that was not seen before is kept once.
pub times-unseen :
    (n : String) (seen : String → Bool) (ns : List String)
    → times n (unseen seen ns) ≡ (if not (seen n) && is_listed n ns then 1 else 0)
unfolding unseen
times-unseen n seen [] = ground arith
times-unseen n seen (m ∷ ns) =
    let kept = times-unseen n seen ns in
    let added = times-unseen n (λ k. seen k || str_eq k m) ns in
    elim (Bool-cases (seen m)) [
      | inl old ↦
          let same : str_eq m n ≡ true → seen n ≡ true =
            λ e. sym (ap seen ((str_eq_iff m n).0 e)) ∙ old in
          ap (times n) (unseen-old seen m ns old) ∙ kept ∙ ground (arith, same)
      | inr new ↦
          let same : str_eq m n ≡ true → seen n ≡ false =
            λ e. sym (ap seen ((str_eq_iff m n).0 e)) ∙ new in
          ap (times n) (unseen-new seen m ns new) ∙ ground (arith, same, added, str_eq_sym m n)
    ]
