-- ===== src/Chart/Nearest.antt =====
-- The point found is the nearest (public/static/js/chart.js).
use pm2manager.Common.{
  ℕ, zero, suc, ◌+◌, ◌-◌, ◌/◌, ◌≤◌, ◌<◌, arith, ◌≡◌, refl, inl, inr, Bool, true, false, ◌&&◌, List,
  length, ltb, leb, Bool-cases, if◌then◌else◌,
}
use pm2manager.Chart.{x_at, distance, search, closer, nearest_index}

-- The points stand in the order of their positions.
abbrev pub IsOrdered : List ℕ → Type 0
IsOrdered data_xs = (i j : ℕ) → i ≤ j → j < length data_xs → x_at data_xs i ≤ x_at data_xs j

module _ (data_xs : List ℕ) (xv : ℕ) where
  -- The point `i` is there, and none is nearer.
  abbrev pub IsNearest : ℕ → Type 0
  IsNearest i =
      (i < length data_xs)
      × ((j : ℕ) → j < length data_xs → distance (x_at data_xs i) xv ≤ distance (x_at data_xs j) xv)

  -- The first point up to `hi` that is not before the mouse.
  record IsFirst (hi r : ℕ) : Type 0 where
    inside : r ≤ hi
    before : (j : ℕ) → j < r → x_at data_xs j < xv
    not_before : xv ≤ x_at data_xs r

module _ (data_xs : List ℕ) (xv : ℕ) (ordered : IsOrdered data_xs) where
  search-IsFirst :
      (fuel lo hi : ℕ)
      → hi ≤ fuel + lo
      → lo ≤ hi
      → hi < length data_xs
      → ((j : ℕ) → j < lo → x_at data_xs j < xv)
      → xv ≤ x_at data_xs hi
      → IsFirst data_xs xv hi (search data_xs xv fuel lo hi)
  unfolding search
  search-IsFirst zero lo hi f l h b e =
      let same : lo ≡ hi = omega arith in record { inside = l; before = b; not_before = rw same e }
  search-IsFirst (suc n) lo hi f l h b e = elim (Bool-cases (ltb lo hi)) [
    | inr done ↦
        let same : lo ≡ hi = ground arith in
        rw done (record { inside = l; before = b; not_before = rw same e })
    | inl more ↦
        let mid = (lo + hi) / 2 in
        let half : mid < hi = ground arith in
        let above : lo ≤ mid = ground arith in
        elim (Bool-cases (ltb (x_at data_xs ((lo + hi) / 2)) xv)) [
          | inl low ↦
              rw (more, low)
                (search-IsFirst n (mid + 1) hi (ground arith) (ground arith) h
                  (λ j k.
                    let under : x_at data_xs j ≤ x_at data_xs mid =
                      ordered j mid (omega (arith, k)) (ground arith) in
                    ground arith)
                  e)
          | inr high ↦
              let first =
                search-IsFirst n lo mid (ground arith) (ground arith) (ground arith) b
                  (ground arith) in
              let inside : search data_xs xv n lo mid ≤ hi = omega (arith, first.inside, half) in
              rw (more, high)
                (record { inside = inside; before = first.before; not_before = first.not_before })
        ]
  ]

  -- Before the mouse the later point is nearer, and behind it the earlier.
  nearer_before :
      (j i : ℕ)
      → j ≤ i
      → i < length data_xs
      → x_at data_xs i ≤ xv
      → distance (x_at data_xs i) xv ≤ distance (x_at data_xs j) xv
  nearer_before j i l h k = omega (arith, ordered j i l h, k)

  nearer_behind :
      (i j : ℕ)
      → i ≤ j
      → j < length data_xs
      → xv ≤ x_at data_xs i
      → distance (x_at data_xs i) xv ≤ distance (x_at data_xs j) xv
  nearer_behind i j l h k = omega (arith, ordered i j l h, k)

  closer-IsNearest :
      (hi r : ℕ)
      → hi < length data_xs
      → IsFirst data_xs xv hi r
      → IsNearest data_xs xv (closer data_xs xv r)
  closer-IsNearest hi zero h first =
      (omega (arith, h), λ j k. nearer_behind 0 j (omega arith) k first.not_before)
  closer-IsNearest hi (suc r) h first =
      by_case
        (ltb 0 (suc r)
          && leb (distance (x_at data_xs (suc r - 1)) xv) (distance (x_at data_xs (suc r)) xv))
        refl
    where
      there : suc r < length data_xs
      there = omega (arith, h, first.inside)

      previous : suc r - 1 ≡ r
      previous = omega arith

      ahead : (j : ℕ) → j < suc r → distance (x_at data_xs r) xv ≤ distance (x_at data_xs j) xv
      ahead j b =
          nearer_before j r (omega (arith, b)) (omega (arith, there))
            (omega (arith, first.before r (omega arith)))

      behind :
          (j : ℕ)
          → j < length data_xs
          → suc r ≤ j
          → distance (x_at data_xs (suc r)) xv ≤ distance (x_at data_xs j) xv
      behind j k b = nearer_behind (suc r) j b k first.not_before

      by_case :
          (c : Bool)
          → (ltb 0 (suc r)
              && leb (distance (x_at data_xs (suc r - 1)) xv) (distance (x_at data_xs (suc r)) xv))
            ≡ c
          → IsNearest data_xs xv (if c then suc r - 1 else suc r)
      by_case true e = rw previous (
        omega (arith, there),
        λ j k. elim (Bool-cases (ltb j (suc r))) [
          | inl b ↦ ahead j (ground arith)
          | inr b ↦
              let past = behind j k (ground arith) in let close = rw previous at e in ground arith
        ],
      )
      by_case false e = (
        there,
        λ j k. elim (Bool-cases (ltb j (suc r))) [
          | inl b ↦ let far = ahead j (ground arith) in let close = rw previous at e in ground arith
          | inr b ↦ behind j k (ground arith)
        ],
      )

  -- Of points in order, at least one, the binary search finds one that is nearest to the mouse.
  pub nearest_index-IsNearest : 0 < length data_xs → IsNearest data_xs xv (nearest_index data_xs xv)
  unfolding nearest_index
  nearest_index-IsNearest some_point = elim (Bool-cases (leb xv (x_at data_xs 0))) [
    | inl c ↦ rw c (some_point, λ j k. nearer_behind 0 j (omega arith) k (ground arith))
    | inr c ↦ elim (Bool-cases (leb (x_at data_xs (length data_xs - 1)) xv)) [
      | inl d ↦
          rw (c, d)
            (
              omega arith,
              λ j k.
                  nearer_before j (length data_xs - 1) (omega (arith, k)) (omega arith)
                    (ground arith),
            )
      | inr d ↦
          rw (c, d)
            (closer-IsNearest (length data_xs - 1) _ (omega arith) (
              search-IsFirst (length data_xs - 1) 0 (length data_xs - 1) (omega arith) (omega arith)
                (omega arith) (λ j k. absurd (omega (arith, k))) (ground arith)))
    ]
  ]
