-- ===== src/Users/Table.antt =====
-- What the operations on the users table keep (src/repositories/user.repository.ts).
use pm2manager.Common.{
  ℕ, ◌+◌, ◌≤◌, ◌≡◌, refl, ◌≢◌, sym, ◌∙◌, String, Bool, true, false, not, Option, none, [], ◌∷◌,
  ◌++◌, arith, ◌==◌, All, Apart, All-append, All-map, All-weaken, All-both, All-filter,
  Apart-append_one, Apart-filter, Apart-map, find-append_one, find-none, any-none, Bool-cases, inl,
  inr, str_eq, str_eq_iff, codes_eq_iff, if◌then◌else◌,
}
use mathlib.Core.Path.{subst}
use mathlib.Core.Bool.{false≢true}
use pm2manager.Exec.{ok}
use pm2manager.Users.{
  UserRecord, Users, CreateUserData, same_name, inserted, name_taken, find_by_username, create,
  update_where, update_password, set_totp, delete,
}

-- Two rows with different ids and, without regard to case, different names.
abbrev pub AreApart : UserRecord → UserRecord → Type 0
AreApart u v = (u.id ≢ v.id) × (same_name u.username v.username ≡ false)

pub record IsWellFormed (t : Users) : Type 0 where
  pub bounded : All (λ u. u.id ≤ t.last_id) t.rows
  pub apart : Apart AreApart t.rows

pub same_name_refl : (a : String) → same_name a a ≡ true
same_name_refl a = (codes_eq_iff _ _).1 refl

-- A name that differs even without regard to case differs.
str_eq-false : (a b : String) → same_name a b ≡ false → str_eq a b ≡ false
str_eq-false a b e = elim (Bool-cases (str_eq a b)) [
  | inl same ↦
      let names : a ≡ b = (str_eq_iff a b).0 same in
      let both : same_name a b ≡ true =
        subst (λ c. same_name a c ≡ true) names (same_name_refl a) in
      absurd (false≢true (sym e ∙ both))
  | inr other ↦ other
]

-- A name that no row has, without regard to case, is not taken.
pub name_taken-false :
    (name : String) (t : Users) → find_by_username name t ≡ none → name_taken name t ≡ false
unfolding find_by_username
name_taken-false name t h =
    any-none (λ u. str_eq u.username name) t.rows
      (All-weaken (λ u. same_name u.username name ≡ false) (λ u. str_eq u.username name ≡ false)
        (λ u. str_eq-false u.username name) t.rows
        (find-none (λ u. same_name u.username name) t.rows h))

-- The row that an insertion adds.
module _ (now : ℕ) (input : CreateUserData) (t : Users) where
  abbrev pub extended : Users
  extended = record { rows = t.rows ++ inserted now input t ∷ []; last_id = t.last_id + 1 }

  fresh_id : All (λ u. u.id ≤ t.last_id) t.rows → All (λ u. (u.id == t.last_id + 1) ≡ false) t.rows
  fresh_id = All-weaken _ _ (λ u h. ground arith) t.rows

  -- An insertion under a name that is not taken returns the new row, which has the next id and is
  -- found under it.
  pub create_lem :
      IsWellFormed t
      → name_taken input.username t ≡ false
      → create now input t ≡ (ok (inserted now input t), extended)
  unfolding create
  create_lem w free = rw free (
      rw (
        find-append_one (λ u. u.id == t.last_id + 1) t.rows (inserted now input t)
          (fresh_id w.bounded) (ground arith)))

  pub extended-IsWellFormed :
      IsWellFormed t → find_by_username input.username t ≡ none → IsWellFormed extended
  unfolding find_by_username
  extended-IsWellFormed w free = record {
    bounded =
        All-append (λ u. u.id ≤ t.last_id + 1) t.rows (inserted now input t ∷ [])
          (All-weaken _ _ (λ u h. omega arith) t.rows w.bounded) (omega arith, tt);
    apart = Apart-append_one AreApart t.rows (inserted now input t) w.apart (
        All-both (λ u. u.id ≤ t.last_id) (λ u. same_name u.username input.username ≡ false)
          (λ u. AreApart u (inserted now input t)) (λ u h k. (omega arith, k)) t.rows w.bounded
          (find-none (λ u. same_name u.username input.username) t.rows free));
  }

-- `create` keeps the table well formed under a name that no row has, without regard to case.
pub create-IsWellFormed :
    (now : ℕ) (input : CreateUserData) (t : Users)
    → IsWellFormed t
    → find_by_username input.username t ≡ none
    → IsWellFormed (create now input t).1
create-IsWellFormed now input t w free =
    rw (create_lem now input t w (name_taken-false input.username t free))
      (extended-IsWellFormed now input t w free)

-- A change that leaves the id and the name alone.
module _ (id : ℕ) (change : UserRecord → UserRecord)
    (same_id : (u : UserRecord) → (change u).id ≡ u.id)
    (same_username : (u : UserRecord) → (change u).username ≡ u.username) where
  abbrev changed : UserRecord → UserRecord
  changed u = if u.id == id then change u else u

  id-changed : (u : UserRecord) → (changed u).id ≡ u.id
  id-changed u = elim (Bool-cases (u.id == id)) [ inl e ↦ rw e (same_id u) | inr e ↦ rw e ]

  username-changed : (u : UserRecord) → (changed u).username ≡ u.username
  username-changed u = elim (Bool-cases (u.id == id)) [
    | inl e ↦ rw e (same_username u)
    | inr e ↦ rw e
  ]

  pub update_where-IsWellFormed :
      (t : Users) → IsWellFormed t → IsWellFormed (update_where id change t)
  update_where-IsWellFormed t w = record {
    bounded = All-map (λ u. u.id ≤ t.last_id) changed (λ u h. rw (id-changed u) h) t.rows w.bounded;
    apart =
        Apart-map AreApart changed
          (λ u v h.
            (rw (id-changed u, id-changed v) h.0, rw (username-changed u, username-changed v) h.1))
          t.rows w.apart;
  }

pub update_password-IsWellFormed :
    (now id : ℕ) (hash : String) (t : Users)
    → IsWellFormed t
    → IsWellFormed (update_password now id hash t)
unfolding update_password
update_password-IsWellFormed now id hash t =
    update_where-IsWellFormed id _ (λ u. refl) (λ u. refl) t

pub set_totp-IsWellFormed :
    (now id : ℕ) (secret : Option String) (enabled : Bool) (t : Users)
    → IsWellFormed t
    → IsWellFormed (set_totp now id secret enabled t)
unfolding set_totp
set_totp-IsWellFormed now id secret enabled t =
    update_where-IsWellFormed id _ (λ u. refl) (λ u. refl) t

pub delete-IsWellFormed : (id : ℕ) (t : Users) → IsWellFormed t → IsWellFormed (delete id t)
unfolding delete
delete-IsWellFormed id t w = record {
  bounded = All-filter _ (λ u. not (u.id == id)) t.rows w.bounded;
  apart = Apart-filter AreApart (λ u. not (u.id == id)) t.rows w.apart;
}
