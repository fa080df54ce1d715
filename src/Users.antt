-- ===== src/Users.antt =====
-- The users table (src/db/schema.ts) and its repository (src/repositories/user.repository.ts).
-- Rows stand in the order of insertion; a time is a number of seconds, whose order is that of the
-- texts that SQLite's datetime('now') gives.
pub mod Order
pub mod Table
pub mod Queries
use pm2manager.Common.{
  ℕ, ◌+◌, String, Bool, true, false, not, Option, none, some, List, [], ◌∷◌, ◌++◌, map, ◌==◌,
  length, filter, find, any, str_eq, codes, fold_case, codes_eq, if◌then◌else◌,
}
use pm2manager.Common.Sort.{sort}
use pm2manager.Users.Order.{codes_le}
use pm2manager.Errors.{unexpected}
use pm2manager.Exec.{Exec, fail, required, pure, modify, gets, ◌>>=◌, ◌>>◌, when}

-- A row; the flags are 0 or 1.
pub record UserRecord : Type 0 where
  pub id : ℕ
  pub username : String
  pub password_hash : String
  pub totp_secret : Option String
  pub totp_enabled : ℕ
  pub is_admin : ℕ
  pub created_at : ℕ
  pub updated_at : ℕ

-- `last_id` is the largest id ever given out, which AUTOINCREMENT keeps.
pub record Users : Type 0 where
  pub rows : List UserRecord
  pub last_id : ℕ

pub record CreateUserData : Type 0 where
  pub username : String
  pub password_hash : String
  pub is_admin : Bool

-- `username = ? COLLATE NOCASE`
abbrev pub same_name : String → String → Bool
same_name a b = codes_eq (fold_case (codes a)) (fold_case (codes b))

-- `flag ? 1 : 0`
abbrev pub bit : Bool → ℕ
bit b = if b then 1 else 0

unfoldable pub count_all : Users → ℕ
count_all t = length t.rows

unfoldable pub find_by_id : ℕ → Users → Option UserRecord
find_by_id id t = find (λ u. u.id == id) t.rows

unfoldable pub find_by_username : String → Users → Option UserRecord
find_by_username username t = find (λ u. same_name u.username username) t.rows

abbrev name_le : UserRecord → UserRecord → Bool
name_le a b = codes_le (fold_case (codes a.username)) (fold_case (codes b.username))

unfoldable pub list_all : Users → List UserRecord
unfolding sort codes_le
list_all t = sort name_le t.rows

-- The INSERT statement: the UNIQUE constraint compares exactly, and the row takes the next id.
abbrev pub inserted : ℕ → CreateUserData → Users → UserRecord
inserted now input t = record {
  id = t.last_id + 1;
  username = input.username;
  password_hash = input.password_hash;
  totp_secret = none;
  totp_enabled = 0;
  is_admin = bit input.is_admin;
  created_at = now;
  updated_at = now;
}

abbrev pub name_taken : String → Users → Bool
name_taken username t = any (λ u. str_eq u.username username) t.rows

abbrev insert_row : ℕ → CreateUserData → Exec Users ℕ
insert_row now input t =
    when (name_taken input.username t)
      (fail (unexpected "UNIQUE constraint failed: users.username"))
      (modify
          (λ t'. record { rows = t'.rows ++ inserted now input t' ∷ []; last_id = t'.last_id + 1 })
        >> gets (λ t'. t'.last_id))
      t

-- `create`: insert, and read the row back.
unfoldable pub create : ℕ → CreateUserData → Exec Users UserRecord
unfolding find_by_id
create now input = do
  last_insert_rowid ← insert_row now input
  found ← gets (find_by_id last_insert_rowid)
  required found

-- `UPDATE users SET ... WHERE id = ?`
abbrev pub update_where : ℕ → (UserRecord → UserRecord) → Users → Users
update_where id change t = record t { rows = map (λ u. if u.id == id then change u else u) t.rows }

unfoldable pub update_password : ℕ → ℕ → String → Users → Users
update_password now id password_hash t =
    update_where id (λ u. record u { password_hash = password_hash; updated_at = now }) t

unfoldable pub set_totp : ℕ → ℕ → Option String → Bool → Users → Users
set_totp now id secret enabled t =
    update_where id
      (λ u. record u { totp_secret = secret; totp_enabled = bit enabled; updated_at = now }) t

unfoldable pub delete : ℕ → Users → Users
delete id t = record t { rows = filter (λ u. not (u.id == id)) t.rows }
