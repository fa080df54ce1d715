-- ===== src/Common/Sort.antt =====
-- ORDER BY and `Array.prototype.sort`: a stable sort, by insertion.
use mathlib.Core.List.{Perm}
use mathlib.Core.List.Perm
use mathlib.Core.Path.{◌≡◌, refl}
use mathlib.Core.Logic.{inl, inr}
use mathlib.Core.Bool.{Bool, true, false}
use mathlib.Core.List.{List, [], ◌∷◌}
use native.Mathlib.Omega.{arith}
use Prim.Native.Nat.{suc}
use pm2manager.Common.Tests.{Bool-cases, if◌then◌else◌}
use pm2manager.Common.Lists.{All, All-weaken, Apart, length, filter}

module _ {ℓ} {A : Type ℓ} (le : A → A → Bool) where
  -- `x` goes before the first element that is not below it, so equal elements keep their order.
  unfoldable pub insert : A → List A → List A
  insert x [] = x ∷ []
  insert x (y ∷ ys) = let rest = insert x ys in if le x y then x ∷ y ∷ ys else y ∷ rest

  unfoldable pub sort : List A → List A
  unfolding insert
  sort [] = []
  sort (x ∷ xs) = insert x (sort xs)

  pub insert-perm : (x : A) (ys : List A) → Perm (insert x ys) (x ∷ ys)
  unfolding insert
  insert-perm x [] = Perm.refl _
  insert-perm x (y ∷ ys) = elim (Bool-cases (le x y)) [
    | inl h ↦ rw h (Perm.refl _)
    | inr h ↦ rw h (Perm.trans (Perm.cons y (insert-perm x ys)) (Perm.swap x y ys))
  ]

  -- Sorting rearranges.
  pub sort-perm : (xs : List A) → Perm (sort xs) xs
  unfolding sort
  sort-perm [] = Perm.refl _
  sort-perm (x ∷ xs) = Perm.trans (insert-perm x (sort xs)) (Perm.cons x (sort-perm xs))

  length-filter-insert :
      (p : A → Bool) (x : A) (ys : List A)
      → length (filter p (insert x ys)) ≡ length (filter p (x ∷ ys))
  unfolding insert
  length-filter-insert p x [] = refl
  length-filter-insert p x (y ∷ ys) = ground (arith, length-filter-insert p x ys)

  -- Sorting does not change how many elements pass a test.
  pub length-filter-sort :
      (p : A → Bool) (xs : List A) → length (filter p (sort xs)) ≡ length (filter p xs)
  unfolding sort
  length-filter-sort p [] = refl
  length-filter-sort p (x ∷ xs) =
      ground (arith, length-filter-insert p x (sort xs), length-filter-sort p xs)

  length-insert : (x : A) (ys : List A) → length (insert x ys) ≡ suc (length ys)
  unfolding insert
  length-insert x [] = refl
  length-insert x (y ∷ ys) = ground (arith, length-insert x ys)

  pub length-sort : (xs : List A) → length (sort xs) ≡ length xs
  unfolding sort
  length-sort [] = refl
  length-sort (x ∷ xs) = omega (arith, length-insert x (sort xs), length-sort xs)

  All-insert : (P : A → Type 0) (x : A) (ys : List A) → P x → All P ys → All P (insert x ys)
  unfolding insert
  All-insert P x [] h k = (h, tt)
  All-insert P x (y ∷ ys) h (k, ks) = elim (Bool-cases (le x y)) [
    | inl e ↦ rw e (h, (k, ks))
    | inr e ↦ rw e (k, All-insert P x ys h ks)
  ]

  -- Elements that are all below one another keep their order: the sort is stable.
  filter-insert :
      (p : A → Bool) (x : A) (ys : List A)
      → ((y : A) → p x ≡ true → p y ≡ true → le x y ≡ true)
      → filter p (insert x ys) ≡ filter p (x ∷ ys)
  unfolding insert
  filter-insert p x [] h = refl
  filter-insert p x (y ∷ ys) h = ground (arith, h y, filter-insert p x ys h)

  pub filter-sort :
      (p : A → Bool) (xs : List A)
      → ((x y : A) → p x ≡ true → p y ≡ true → le x y ≡ true)
      → filter p (sort xs) ≡ filter p xs
  unfolding sort
  filter-sort p [] h = refl
  filter-sort p (x ∷ xs) h = ground (arith, filter-insert p x (sort xs) (h x), filter-sort p xs h)

  -- Under a total and transitive order, sorting puts each element before those that it is below.
  module _ (total : (x y : A) → le x y ≡ false → le y x ≡ true)
      (transitive : (x y z : A) → le x y ≡ true → le y z ≡ true → le x z ≡ true) where
    insert-Apart :
        (x : A) (ys : List A)
        → Apart (λ a b. le a b ≡ true) ys
        → Apart (λ a b. le a b ≡ true) (insert x ys)
    unfolding insert
    insert-Apart x [] h = (tt, tt)
    insert-Apart x (y ∷ ys) (h, hs) = elim (Bool-cases (le x y)) [
      | inl e ↦
          rw e ((e, All-weaken _ (λ b. le x b ≡ true) (λ b k. transitive x y b e k) ys h), (h, hs))
      | inr e ↦ rw e (All-insert (λ b. le y b ≡ true) x ys (total x y e) h, insert-Apart x ys hs)
    ]

    pub sort-Apart : (xs : List A) → Apart (λ a b. le a b ≡ true) (sort xs)
    unfolding sort
    sort-Apart [] = tt
    sort-Apart (x ∷ xs) = insert-Apart x (sort xs) (sort-Apart xs)
