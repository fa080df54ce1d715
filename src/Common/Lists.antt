-- ===== src/Common/Lists.antt =====
-- Lists measured by native numbers and filtered by Boolean tests.
use Prim.Native.Nat.{ℕ, zero, suc, ◌+◌, ◌≤◌}
use mathlib.Core.Path.{◌≡◌, refl, subst}
use mathlib.Core.Logic.{inl, inr}
use mathlib.Core.Bool.{Bool, true, false, not, ◌||◌}
use mathlib.Core.Option.{Option, none, some}
use mathlib.Core.List.{List, [], ◌∷◌, ◌++◌, map}
use native.Mathlib.Omega.{arith}
use pm2manager.Common.Tests.{Bool-cases, if◌then◌else◌}

-- `P` holds of every element.
abbrev pub All {ℓ κ} : {A : Type ℓ} → (A → Type κ) → List A → Type κ
All P [] = Unit
All P (x ∷ xs) = P x × All P xs

module _ {ℓ} {A : Type ℓ} where
  abbrev pub length : List A → ℕ
  length [] = 0
  length (x ∷ xs) = suc (length xs)

  -- `slice(0, n)`, LIMIT n
  abbrev pub take : ℕ → List A → List A
  take zero xs = []
  take (suc n) [] = []
  take (suc n) (x ∷ xs) = x ∷ take n xs

  -- `slice(n)`, OFFSET n
  abbrev pub drop : ℕ → List A → List A
  drop zero xs = xs
  drop (suc n) [] = []
  drop (suc n) (x ∷ xs) = drop n xs

  -- `xs.filter(p)`, WHERE p
  abbrev pub filter : (A → Bool) → List A → List A
  filter p [] = []
  filter p (x ∷ xs) = let rest = filter p xs in if p x then x ∷ rest else rest

  -- `xs.find(p)`, the row that a SELECT ... WHERE p reads
  abbrev pub find : (A → Bool) → List A → Option A
  find p [] = none
  find p (x ∷ xs) = let rest = find p xs in if p x then some x else rest

  -- `xs.some(p)`
  abbrev pub any : (A → Bool) → List A → Bool
  any p [] = false
  any p (x ∷ xs) = p x || any p xs

  pub length-append : (xs ys : List A) → length (xs ++ ys) ≡ length xs + length ys
  length-append [] ys = omega arith
  length-append (x ∷ xs) ys = omega (arith, length-append xs ys)

  pub length-take-le : (n : ℕ) (xs : List A) → length (take n xs) ≤ n
  length-take-le zero xs = omega arith
  length-take-le (suc n) [] = omega arith
  length-take-le (suc n) (x ∷ xs) = omega (arith, length-take-le n xs)

  pub length-filter-le : (p : A → Bool) (xs : List A) → length (filter p xs) ≤ length xs
  length-filter-le p [] = omega arith
  length-filter-le p (x ∷ xs) = ground (arith, length-filter-le p xs)

  pub filter-append :
      (p : A → Bool) (xs ys : List A) → filter p (xs ++ ys) ≡ filter p xs ++ filter p ys
  filter-append p [] ys = refl
  filter-append p (x ∷ xs) ys = ground (arith, filter-append p xs ys)

  -- A found element passes the test.
  pub find_passes : (p : A → Bool) (xs : List A) {a : A} → find p xs ≡ some a → p a ≡ true
  find_passes p [] h = ground arith
  find_passes p (x ∷ xs) {a} h = ground (arith, find_passes p xs {a = a})

  -- What holds of every element still does after a filter.
  pub All-filter {κ} :
      (P : A → Type κ) (p : A → Bool) (xs : List A) → All P xs → All P (filter p xs)
  All-filter P p [] h = tt
  All-filter P p (x ∷ xs) (h, hs) =
      let rest = All-filter P p xs hs in
      elim (p x) as (λ b. All P (if b then x ∷ filter p xs else filter p xs)) [
        | true ↦ (h, rest)
        | false ↦ rest
      ]

-- `R` holds between each element and every later one.
abbrev pub Apart {ℓ κ} : {A : Type ℓ} → (A → A → Type κ) → List A → Type κ
Apart R [] = Unit
Apart R (x ∷ xs) = All (R x) xs × Apart R xs

module _ {ℓ κ} {A : Type ℓ} (P : A → Type κ) where
  pub All-append : (xs ys : List A) → All P xs → All P ys → All P (xs ++ ys)
  All-append [] ys h k = k
  All-append (x ∷ xs) ys (h, hs) k = (h, All-append xs ys hs k)

  pub All-map :
      (f : A → A) → ((a : A) → P a → P (f a)) → (xs : List A) → All P xs → All P (map f xs)
  All-map f keep [] h = tt
  All-map f keep (x ∷ xs) (h, hs) = (keep x h, All-map f keep xs hs)

-- A weaker predicate.
pub All-weaken {ℓ κ μ} :
    {A : Type ℓ} (P : A → Type κ) (Q : A → Type μ)
    → ((a : A) → P a → Q a)
    → (xs : List A) → All P xs
    → All Q xs
All-weaken P Q w [] h = tt
All-weaken P Q w (x ∷ xs) (h, hs) = (w x h, All-weaken P Q w xs hs)

-- Two predicates that give a third.
pub All-both {ℓ κ μ ν} :
    {A : Type ℓ} (P : A → Type κ) (Q : A → Type μ) (S : A → Type ν)
    → ((a : A) → P a → Q a → S a)
    → (xs : List A) → All P xs
    → All Q xs
    → All S xs
All-both P Q S w [] h k = tt
All-both P Q S w (x ∷ xs) (h, hs) (k, ks) = (w x h k, All-both P Q S w xs hs ks)

module _ {ℓ κ} {A : Type ℓ} (R : A → A → Type κ) where
  pub Apart-append_one :
      (xs : List A) (a : A) → Apart R xs → All (λ x. R x a) xs → Apart R (xs ++ a ∷ [])
  Apart-append_one [] a h k = (tt, tt)
  Apart-append_one (x ∷ xs) a (h, hs) (k, ks) =
      (All-append (R x) xs (a ∷ []) h (k, tt), Apart-append_one xs a hs ks)

  pub Apart-filter : (p : A → Bool) (xs : List A) → Apart R xs → Apart R (filter p xs)
  Apart-filter p [] h = tt
  Apart-filter p (x ∷ xs) (h, hs) =
      let rest = Apart-filter p xs hs in
      let apart = All-filter (R x) p xs h in
      elim (p x) as (λ b. Apart R (if b then x ∷ filter p xs else filter p xs)) [
        | true ↦ (apart, rest)
        | false ↦ rest
      ]

-- A map that respects `R` on both sides keeps elements apart.
pub Apart-map {ℓ κ} :
    {A : Type ℓ} (R : A → A → Type κ) (f : A → A)
    → ((a b : A) → R a b → R (f a) (f b))
    → (xs : List A) → Apart R xs
    → Apart R (map f xs)
Apart-map R f keep [] h = tt
Apart-map {A} R f keep (x ∷ xs) (h, hs) = (apart xs h, Apart-map R f keep xs hs)
  where
    apart : (ys : List A) → All (R x) ys → All (R (f x)) (map f ys)
    apart [] k = tt
    apart (y ∷ ys) (k, ks) = (keep x y k, apart ys ks)

module _ {ℓ} {A : Type ℓ} where
  -- The last element is found if no other passes.
  pub find-append_one :
      (p : A → Bool) (xs : List A) (a : A)
      → All (λ x. p x ≡ false) xs
      → p a ≡ true
      → find p (xs ++ a ∷ []) ≡ some a
  find-append_one p [] a h e = rw e
  find-append_one p (x ∷ xs) a (h, hs) e = rw h (find-append_one p xs a hs e)

  pub find-append_some :
      (p : A → Bool) (xs ys : List A) {a : A} → find p xs ≡ some a → find p (xs ++ ys) ≡ some a
  find-append_some p [] ys {a} h = ground arith
  find-append_some p (x ∷ xs) ys {a} h = ground (arith, find-append_some p xs ys {a = a})

  -- Nothing is found where nothing passes, and conversely.
  pub find-none : (p : A → Bool) (xs : List A) → find p xs ≡ none → All (λ x. p x ≡ false) xs
  find-none p [] h = tt
  find-none p (x ∷ xs) h = elim (Bool-cases (p x)) [
    | inl e ↦ absurd (some≢none (rw e at h))
    | inr e ↦ (e, find-none p xs (rw e at h))
  ]
    where
      some≢none : {a : A} → some a ≡ none → ⊥
      some≢none h = cc

  pub any-none : (p : A → Bool) (xs : List A) → All (λ x. p x ≡ false) xs → any p xs ≡ false
  any-none p [] h = refl
  any-none p (x ∷ xs) (h, hs) = rw (h, any-none p xs hs)

  -- The found element, of those that satisfy a predicate.
  pub find-All {κ} :
      (P : A → Type κ) (p : A → Bool) (xs : List A) {a : A} → All P xs → find p xs ≡ some a → P a
  find-All P p [] h e = absurd (none≢some e)
    where
      none≢some : {a : A} → none ≡ some a → ⊥
      none≢some h = cc
  find-All P p (x ∷ xs) {a} (h, hs) e = elim (Bool-cases (p x)) [
    | inl passes ↦ subst P (same (rw passes at e)) h
    | inr fails ↦ find-All P p xs hs (rw fails at e)
  ]
    where
      same : {b : A} → some x ≡ some b → x ≡ b
      same h = cc

module _ {ℓ} {A : Type ℓ} (p : A → Bool) where
  -- Filters by tests that agree.
  pub filter_congr :
      (q : A → Bool) → ((a : A) → p a ≡ q a) → (xs : List A) → filter p xs ≡ filter q xs
  filter_congr q same [] = refl
  filter_congr q same (x ∷ xs) = ground (arith, same x, filter_congr q same xs)

  -- What passes and what does not are all.
  pub length-filter-not :
      (xs : List A) → length (filter p xs) + length (filter (λ x. not (p x)) xs) ≡ length xs
  length-filter-not [] = omega arith
  length-filter-not (x ∷ xs) = ground (arith, length-filter-not xs)
