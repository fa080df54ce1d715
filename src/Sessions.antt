-- ===== src/Sessions.antt =====
-- What a session holds (src/types/session.d.ts), and the rows of the sessions table, which the
-- session store owns and src/repositories/session.repository.ts revokes.
pub mod Revocation
use pm2manager.Common.Numerals.{printed}
use pm2manager.Common.{
  ℕ, zero, suc, ◌+◌, ◌/◌, ◌%◌, String, Bool, true, false, not, ◌&&◌, ◌||◌, Option, none, some, List,
  [], ◌∷◌, ◌++◌, ◌==◌, length, filter, codes, lower, if◌then◌else◌,
}

pub record SessionUser : Type 0 where
  pub id : ℕ
  pub username : String
  pub is_admin : Bool

pub record Pending2fa : Type 0 where
  pub user_id : ℕ
  pub username : String

pub record SessionData : Type 0 where
  pub user : Option SessionUser
  pub pending2fa : Option Pending2fa
  pub pending_totp_secret : Option String
  pub csrf_secret : Option String

-- A new session carries nothing of the application.
abbrev pub empty_session : SessionData
empty_session = record {
  user = none;
  pending2fa = none;
  pending_totp_secret = none;
  csrf_secret = none;
}

-- `sess` is the JSON text of the session, as code points.
pub record SessionRow : Type 0 where
  pub sid : String
  pub sess : List ℕ

-- The operator LIKE: `%` is any run, `_` any one character, and letters match without regard to
-- ASCII case. `star f` tries `f` at every suffix.
unfoldable pub star : (List ℕ → Bool) → List ℕ → Bool
star f [] = f []
star f (c ∷ cs) = f (c ∷ cs) || star f cs

unfoldable pub one : ℕ → (List ℕ → Bool) → List ℕ → Bool
unfolding lower
one p f [] = false
one p f (c ∷ cs) = (p == b'_' || lower p == lower c) && f cs

unfoldable pub like : List ℕ → List ℕ → Bool
unfolding star one
like [] [] = true
like [] (c ∷ cs) = false
like (p ∷ ps) text = if p == b'%' then star (like ps) text else one p (like ps) text

-- `"user":{"id":${userId},`
abbrev pub user_key : List ℕ
user_key = codes "\"user\":{\"id\":"

abbrev pub fragment : ℕ → List ℕ
fragment user_id = user_key ++ (printed user_id ++ b',' ∷ [])

abbrev pub pattern_of : ℕ → List ℕ
pattern_of user_id = b'%' ∷ (fragment user_id ++ b'%' ∷ [])

-- The rows that stay, and how many went. Before the table exists there is nothing to delete.
unfoldable pub delete_by_user_id : Bool → ℕ → List SessionRow → ℕ × List SessionRow
unfolding like printed
delete_by_user_id table_exists user_id rows =
    if table_exists
    then (
      length (filter (λ r. like (pattern_of user_id) r.sess) rows),
      filter (λ r. not (like (pattern_of user_id) r.sess)) rows,
    )
    else (0, rows)
