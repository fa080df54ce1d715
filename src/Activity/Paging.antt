-- ===== src/Activity/Paging.antt =====
-- Pages of the audit log (`list` of src/repositories/activity.repository.ts).
use Prim.Native.Nat.add
use pm2manager.Common.{
  ℕ, zero, suc, ◌+◌, ◌*◌, ◌≤◌, ◌≡◌, refl, Option, some, List, [], ◌∷◌, ◌++◌, arith, ap, ◌∙◌, min,
  max, length, take, drop, filter, length-take-le, Bool, true, false, Apart, ◌&&◌, filter_congr,
}
use pm2manager.Common.Sort.{length-sort, sort-Apart}
use pm2manager.Activity.{
  ActivityRecord, ActivityType, ActivityLog, ActivityQuery, clamped_limit, selected, list, count,
  all_activity, of_type, matching, newer,
}

module _ {ℓ} {A : Type ℓ} where
  pub take-all : (n : ℕ) (xs : List A) → length xs ≤ n → take n xs ≡ xs
  take-all zero [] h = refl
  take-all zero (x ∷ xs) h = absurd (omega arith)
  take-all (suc n) [] h = refl
  take-all (suc n) (x ∷ xs) h = ap (λ ys. x ∷ ys) (take-all n xs (omega arith))

  take_nil : (n : ℕ) → take {A = A} n [] ≡ []
  take_nil zero = refl
  take_nil (suc n) = refl

  -- A page after the first `m` elements goes on where they end.
  take-append-drop : (m n : ℕ) (xs : List A) → take m xs ++ take n (drop m xs) ≡ take (m + n) xs
  take-append-drop zero n xs = rw (add.zero n)
  take-append-drop (suc m) n [] = rw (add.suc m n) (take_nil n)
  take-append-drop (suc m) n (x ∷ xs) =
      rw (add.suc m n) (ap (λ ys. x ∷ ys) (take-append-drop m n xs))

and_true : (b : Bool) → (b && true) ≡ b
and_true true = refl
and_true false = refl

-- The pages that a client reads one after another, `limit` rows each.
abbrev pub pages : ℕ → ℕ → Option ActivityType → ActivityLog → List ActivityRecord
pages zero limit type l = []
pages (suc n) limit type l =
    pages n limit type l
    ++ list (record all_activity { limit = some limit; offset = some (n * limit); type = type }) l

-- No request, whatever its limit, returns more than 500 rows.
pub length-list-le : (q : ActivityQuery) (l : ActivityLog) → length (list q l) ≤ 500
unfolding list
length-list-le q l = omega (arith, length-take-le (clamped_limit q.limit) (drop _ (selected q l)))

module _ (limit : ℕ) (type : Option ActivityType) (l : ActivityLog) where
  abbrev pub whole : List ActivityRecord
  whole = selected (record all_activity { type = type }) l

  pages-eq-take : (n : ℕ) → 1 ≤ limit → limit ≤ 500 → pages n limit type l ≡ take (n * limit) whole
  unfolding list
  pages-eq-take zero h k = let e : 0 * limit ≡ 0 = omega arith in rw e
  pages-eq-take (suc n) h k =
      let room : min (max limit 1) 500 ≡ limit = omega arith in
      let next : suc n * limit ≡ n * limit + limit = omega arith in
      rw (room, pages-eq-take n h k, next) (take-append-drop (n * limit) limit whole)

  pub newest_first : Apart (λ a b. newer a b ≡ true) whole
  unfolding selected
  newest_first =
      sort-Apart newer (λ x y h. ground arith) (λ x y z h k. ground arith)
        (filter (matching (record all_activity { type = type })) l.rows)

  pub length-whole : length whole ≡ count type l
  unfolding selected count
  length-whole =
      length-sort newer _
      ∙ ap length (
          filter_congr (matching (record all_activity { type = type })) (of_type type)
            (λ (r : ActivityRecord). and_true (of_type type r)) l.rows)

  -- Pages of 1 to 500 rows, read one after another until there is room for as many rows as `count`
  -- says, give together every selected row, in the order of falling ids, and as many as `count` says.
  pub pages_complete :
      (n : ℕ)
      → 1 ≤ limit
      → limit ≤ 500
      → count type l ≤ n * limit
      → (pages n limit type l ≡ whole)
        × Apart (λ a b. newer a b ≡ true) whole
        × (length (pages n limit type l) ≡ count type l)
  pages_complete n h k enough =
      let all : pages n limit type l ≡ whole =
        pages-eq-take n h k ∙ take-all (n * limit) whole (omega (arith, length-whole)) in
      (all, newest_first, ap length all ∙ length-whole)
