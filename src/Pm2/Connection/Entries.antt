-- ===== src/Pm2/Connection/Entries.antt =====
-- Reading and writing an entry of a list.
use pm2manager.Common.{
  ℕ, zero, suc, ◌≡◌, ◌≢◌, ◌<◌, refl, ◌⊎◌, inl, inr, Option, none, some, List, [], ◌∷◌, ◌++◌, length,
  arith,
}
use pm2manager.Pm2.Connection.{get_elem?, set}

pub get_elem?-append {ℓ} :
    {A : Type ℓ} (xs : List A) (x y : A) (i : ℕ)
    → get_elem? (xs ++ x ∷ []) i ≡ some y
    → (get_elem? xs i ≡ some y) ⊎ ((i ≡ length xs) × (x ≡ y))
get_elem?-append [] x y zero h = inr (refl, cc)
get_elem?-append [] x y (suc i) h = cc
get_elem?-append (z ∷ zs) x y zero h = inl h
get_elem?-append (z ∷ zs) x y (suc i) h = elim (get_elem?-append zs x y i h) [
  | inl e ↦ inl e
  | inr (e, f) ↦ inr (omega (arith, e), f)
]

pub get_elem?-append_last {ℓ} :
    {A : Type ℓ} (xs : List A) (x : A) → get_elem? (xs ++ x ∷ []) (length xs) ≡ some x
get_elem?-append_last [] x = refl
get_elem?-append_last (y ∷ ys) x = get_elem?-append_last ys x

-- A settled entry is what it was set to, or was settled before.
pub get_elem?-set {ℓ} :
    {A : Type ℓ} (xs : List (Option A)) (i j : ℕ) (r : A)
    → get_elem? (set xs i (some r)) j ≡ some none
    → (get_elem? xs j ≡ some none) × (i ≢ j)
get_elem?-set [] i j r h = cc
get_elem?-set (x ∷ xs) zero zero r h = cc
get_elem?-set (x ∷ xs) zero (suc j) r h = (h, λ e. omega (arith, e))
get_elem?-set (x ∷ xs) (suc i) zero r h = (h, λ e. omega (arith, e))
get_elem?-set (x ∷ xs) (suc i) (suc j) r h =
    let (same, different) = get_elem?-set xs i j r h in (same, λ e. different (omega (arith, e)))

pub get_elem?-append_kept {ℓ} :
    {A : Type ℓ} (xs ys : List A) (x : A) (i : ℕ)
    → get_elem? xs i ≡ some x
    → get_elem? (xs ++ ys) i ≡ some x
get_elem?-append_kept [] ys x i h = cc
get_elem?-append_kept (z ∷ zs) ys x zero h = h
get_elem?-append_kept (z ∷ zs) ys x (suc i) h = get_elem?-append_kept zs ys x i h

-- A write at an unsettled entry leaves the settled ones.
pub get_elem?-set_kept {ℓ} :
    {A : Type ℓ} (xs : List (Option A)) (i j : ℕ) (r r' : A)
    → get_elem? xs i ≡ some none
    → get_elem? xs j ≡ some (some r')
    → get_elem? (set xs i (some r)) j ≡ some (some r')
get_elem?-set_kept [] i j r r' h k = cc
get_elem?-set_kept (x ∷ xs) zero zero r r' h k = cc
get_elem?-set_kept (x ∷ xs) zero (suc j) r r' h k = k
get_elem?-set_kept (x ∷ xs) (suc i) zero r r' h k = k
get_elem?-set_kept (x ∷ xs) (suc i) (suc j) r r' h k = get_elem?-set_kept xs i j r r' h k

pub get_elem?-set_self {ℓ} :
    {A : Type ℓ} (xs : List A) (i : ℕ) (x y : A)
    → get_elem? xs i ≡ some x
    → get_elem? (set xs i y) i ≡ some y
get_elem?-set_self [] i x y h = cc
get_elem?-set_self (z ∷ zs) zero x y h = refl
get_elem?-set_self (z ∷ zs) (suc i) x y h = get_elem?-set_self zs i x y h

pub length-set {ℓ} : {A : Type ℓ} (xs : List A) (i : ℕ) (v : A) → length (set xs i v) ≡ length xs
length-set [] i v = refl
length-set (x ∷ xs) zero v = refl
length-set (x ∷ xs) (suc i) v = omega (arith, length-set xs i v)

pub get_elem?-below {ℓ} :
    {A : Type ℓ} (xs : List A) (i : ℕ) → i < length xs → (x : A) × (get_elem? xs i ≡ some x)
get_elem?-below [] i h = absurd (omega arith)
get_elem?-below (x ∷ xs) zero h = (x, refl)
get_elem?-below (x ∷ xs) (suc i) h = get_elem?-below xs i (omega arith)

pub get_elem?-past {ℓ} : {A : Type ℓ} (xs : List A) → get_elem? xs (length xs) ≡ none
get_elem?-past [] = refl
get_elem?-past (x ∷ xs) = get_elem?-past xs
