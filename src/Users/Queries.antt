-- ===== src/Users/Queries.antt =====
-- What the queries on the users table read after a change (src/repositories/user.repository.ts).
use mathlib.Core.Option
use pm2manager.Common.{
  ℕ, ◌+◌, ◌≡◌, refl, ◌≢◌, Bool, not, none, some, List, [], ◌∷◌, map, arith, ◌==◌, length, filter,
  find, All, All-weaken, Apart, Bool-cases, inl, inr, if◌then◌else◌,
}
use pm2manager.Common.Sort.{length-filter-sort}
use pm2manager.Users.{UserRecord, Users, update_where, find_by_id, delete, list_all, name_le}
use pm2manager.Users.Table.{AreApart}

-- What is found in the changed rows, where the change does not touch the test.
pub find-map :
    (p : UserRecord → Bool) (f : UserRecord → UserRecord)
    → ((u : UserRecord) → p (f u) ≡ p u)
    → (xs : List UserRecord) → find p (map f xs) ≡ Option.map f (find p xs)
find-map p f same [] = refl
find-map p f same (x ∷ xs) = ground (arith, same x, find-map p f same xs)

-- An UPDATE by id is seen by a SELECT by id on every row.
pub find_by_id-update_where :
    (id i : ℕ) (change : UserRecord → UserRecord) (t : Users)
    → ((u : UserRecord) → (change u).id ≡ u.id)
    → find_by_id i (update_where id change t)
      ≡ Option.map (λ u. if u.id == id then change u else u) (find_by_id i t)
unfolding find_by_id
find_by_id-update_where id i change t same =
    find-map (λ u. u.id == i) (λ u. if u.id == id then change u else u)
      (λ u. ground (arith, same u)) t.rows

module _ (id : ℕ) where
  abbrev pub others : List UserRecord → List UserRecord
  others = filter (λ u. not (u.id == id))

  -- A deleted row is not found.
  find-others_self : (xs : List UserRecord) → find (λ u. u.id == id) (others xs) ≡ none
  find-others_self [] = refl
  find-others_self (x ∷ xs) = ground (arith, find-others_self xs)

  -- The other rows are found as before.
  find-others_ne :
      (j : ℕ) (xs : List UserRecord)
      → j ≢ id
      → find (λ u. u.id == j) (others xs) ≡ find (λ u. u.id == j) xs
  find-others_ne j [] ne = refl
  find-others_ne j (x ∷ xs) ne = ground (arith, find-others_ne j xs ne)

  others-absent : (xs : List UserRecord) → All (λ v. id ≢ v.id) xs → others xs ≡ xs
  others-absent [] h = refl
  others-absent (x ∷ xs) (h, hs) = ground (arith, others-absent xs hs)

  -- Deleting one row takes it, and no other, out of the count of those that pass a test.
  pub count-others :
      (p : UserRecord → Bool) (xs : List UserRecord) {u : UserRecord}
      → Apart AreApart xs
      → find (λ v. v.id == id) xs ≡ some u
      → length (filter p (others xs)) + (if p u then 1 else 0) ≡ length (filter p xs)
  count-others p [] h e = ground arith
  count-others p (x ∷ xs) {u} (h, hs) e = elim (Bool-cases (x.id == id)) [
    | inl same ↦
        let absent : others xs ≡ xs =
          others-absent xs
            (All-weaken (AreApart x) (λ v. id ≢ v.id) (λ v a. ground (arith, a.0)) xs h) in
        ground (arith, same, absent, e)
    | inr other ↦ ground (arith, other, e, count-others p xs {u = u} hs)
  ]

-- A deleted user is not found, and the others are found as before.
pub find_by_id-delete_self : (id : ℕ) (t : Users) → find_by_id id (delete id t) ≡ none
unfolding find_by_id delete
find_by_id-delete_self id t = find-others_self id t.rows

pub find_by_id-delete_ne :
    (id j : ℕ) (t : Users) → j ≢ id → find_by_id j (delete id t) ≡ find_by_id j t
unfolding find_by_id delete
find_by_id-delete_ne id j t ne = find-others_ne id j t.rows ne

-- The administrators that `listAll` returns are those of the table.
pub count-list_all :
    (p : UserRecord → Bool) (t : Users) → length (filter p (list_all t)) ≡ length (filter p t.rows)
unfolding list_all
count-list_all p t = length-filter-sort name_le p t.rows
