-- ===== src/Sessions/Revocation.antt =====
-- Revoking a user's sessions (src/repositories/session.repository.ts).
use pm2manager.Common.{ℕ, ◌≡◌, Bool, List, ◌++◌}
use pm2manager.Sessions.{fragment}

-- A JSON text that holds the property `user` of an object whose first property is the given id.
pub record HasUser (user_id : ℕ) (sess : List ℕ) : Type 0 where
  pub before : List ℕ
  pub after : List ℕ
  pub split : sess ≡ before ++ (fragment user_id ++ after)
