-- ===== src/Metrics/Grouping.antt =====
-- GROUP BY a number, in the order of that number (src/repositories/metrics.repository.ts).
use native.Mathlib.Nat
use pm2manager.Common.{
  ℕ, ◌+◌, ◌≡◌, ◌≤◌, ◌<◌, refl, List, [], ◌∷◌, map, length, ltb, ◌==◌, if◌then◌else◌, arith,
  Bool-cases, inl, inr, All, All-weaken, Apart, ◌*◌,
}

pub record Group {ℓ} (A : Type ℓ) : Type ℓ where
  pub key : ℕ
  pub members : List A

-- SUM
unfoldable pub total {ℓ} : {A : Type ℓ} → (A → ℕ) → List A → ℕ
total f [] = 0
total f (x ∷ xs) = f x + total f xs

module _ {ℓ} {A : Type ℓ} (key : A → ℕ) where
  -- Into the group with its key, or one of its own, in order.
  unfoldable pub place : A → List (Group A) → List (Group A)
  place a [] = record { key = key a; members = a ∷ [] } ∷ []
  place a (g ∷ gs) =
      let rest = place a gs in
      if ltb (key a) g.key
      then record { key = key a; members = a ∷ [] } ∷ g ∷ gs
      else if key a == g.key
      then record { key = g.key; members = a ∷ g.members } ∷ gs
      else g ∷ rest

  unfoldable pub group_by : List A → List (Group A)
  unfolding place
  group_by [] = []
  group_by (a ∷ as') = place a (group_by as')

  -- Each key is above the one before, and all are at least `lo` and below `hi`.
  abbrev pub Ascending : ℕ → ℕ → List (Group A) → Type 0
  Ascending lo hi [] = lo ≤ hi
  Ascending lo hi (g ∷ gs) = (lo ≤ g.key) × Ascending (g.key + 1) hi gs

  Ascending-place :
      (lo hi : ℕ) (a : A) (gs : List (Group A))
      → lo ≤ key a
      → key a < hi
      → Ascending lo hi gs
      → Ascending lo hi (place a gs)
  unfolding place
  Ascending-place lo hi a [] h k s = (h, omega arith)
  Ascending-place lo hi a (g ∷ gs) h k (l, s) = elim (Bool-cases (ltb (key a) g.key)) [
    | inl e ↦ rw e (h, (ground (arith, e), s))
    | inr e ↦ elim (Bool-cases (key a == g.key)) [
      | inl f ↦ rw (e, f) (l, s)
      | inr f ↦ rw (e, f) (l, Ascending-place (g.key + 1) hi a gs (ground (arith, e, f)) k s)
    ]
  ]

  pub Ascending-group_by :
      (lo hi : ℕ) (as' : List A)
      → lo ≤ hi
      → All (λ a. (lo ≤ key a) × (key a < hi)) as'
      → Ascending lo hi (group_by as')
  unfolding group_by
  Ascending-group_by lo hi [] b h = b
  Ascending-group_by lo hi (a ∷ as') b (h, hs) =
      Ascending-place lo hi a (group_by as') h.0 h.1 (Ascending-group_by lo hi as' b hs)

  pub length-Ascending :
      (lo hi : ℕ) (gs : List (Group A)) → Ascending lo hi gs → length gs + lo ≤ hi
  length-Ascending lo hi [] s = omega arith
  length-Ascending lo hi (g ∷ gs) (l, s) = omega (arith, length-Ascending (g.key + 1) hi gs s)

  All-place :
      (P : ℕ → Type 0) (a : A) (gs : List (Group A))
      → P (key a)
      → All (λ g. P g.key) gs
      → All (λ g. P g.key) (place a gs)
  unfolding place
  All-place P a [] h hs = (h, tt)
  All-place P a (g ∷ gs) h (k, ks) = elim (Bool-cases (ltb (key a) g.key)) [
    | inl e ↦ rw e (h, (k, ks))
    | inr e ↦ elim (Bool-cases (key a == g.key)) [
      | inl f ↦ rw (e, f) (k, ks)
      | inr f ↦ rw (e, f) (k, All-place P a gs h ks)
    ]
  ]

  -- What holds of the key of every element holds of the key of every group.
  pub All-group_by :
      (P : ℕ → Type 0) (as' : List A) → All (λ a. P (key a)) as' → All (λ g. P g.key) (group_by as')
  unfolding group_by
  All-group_by P [] h = tt
  All-group_by P (a ∷ as') (h, hs) = All-place P a (group_by as') h (All-group_by P as' hs)

  total-place :
      (f : A → ℕ) (a : A) (gs : List (Group A))
      → total (λ g. total f g.members) (place a gs) ≡ f a + total (λ g. total f g.members) gs
  unfolding place total
  total-place f a [] = omega arith
  total-place f a (g ∷ gs) = ground (arith, total-place f a gs)

  -- Grouping loses and adds nothing.
  pub total-group_by :
      (f : A → ℕ) (as' : List A) → total (λ g. total f g.members) (group_by as') ≡ total f as'
  unfolding group_by total
  total-group_by f [] = refl
  total-group_by f (a ∷ as') = omega (arith, total-place f a (group_by as'), total-group_by f as')

  Ascending-All : (lo hi : ℕ) (gs : List (Group A)) → Ascending lo hi gs → All (λ g. lo ≤ g.key) gs
  Ascending-All lo hi [] s = tt
  Ascending-All lo hi (g ∷ gs) (l, s) = (
    l,
    All-weaken _ (λ h. lo ≤ h.key) (λ h k. omega arith) gs (Ascending-All (g.key + 1) hi gs s),
  )

  -- Times in whole buckets ascend as the keys do.
  pub Apart-Ascending {κ} :
      {B : Type κ} (b : ℕ) (f : Group A → B) (time : B → ℕ)
      → ((g : Group A) → time (f g) ≡ g.key * b)
      → 1 ≤ b
      → (lo hi : ℕ) (gs : List (Group A)) → Ascending lo hi gs
      → Apart (λ p q. time p < time q) (map f gs)
  Apart-Ascending b f time e h lo hi [] s = tt
  Apart-Ascending b f time e h lo hi (g ∷ gs) (l, s) = (
    later gs (Ascending-All (g.key + 1) hi gs s),
    Apart-Ascending b f time e h (g.key + 1) hi gs s,
  )
    where
      later :
          (hs : List (Group A))
          → All (λ k. g.key + 1 ≤ k.key) hs
          → All (λ q. time (f g) < time q) (map f hs)
      later [] ks = tt
      later (k ∷ hs) (m, ms) =
          (omega (arith, e g, e k, Nat.mul-le-mul_right b m, Nat.add-mul g.key 1 b), later hs ms)
