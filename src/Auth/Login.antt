-- ===== src/Auth/Login.antt =====
-- What a login and a TOTP step can do to the session (src/controllers/auth.controller.ts).
use pm2manager.Common.{
  ◌≡◌, refl, ◌≢◌, ◌⊎◌, inl, inr, String, true, Option, none, some, arith, ◌==◌, Option-cases, ap,
  ◌∙◌,
}
use pm2manager.Errors.{unauthorized_error, Failure, unexpected}
use pm2manager.Exec.{◌>>◌, throw, ok, err, pure, when_cases, frame-bind}
use pm2manager.Http.{Response, send_success}
use pm2manager.Users.{UserRecord, find_by_id, find_by_username}
use pm2manager.Sessions.{SessionUser, Pending2fa, SessionData, empty_session}
use pm2manager.World.{Env, IsLawful, World, audit, set_session, regenerate_session, save_session}
use pm2manager.Auth.Service.{PublicUser, to_public_user, checked-some, verify_credentials}
use pm2manager.Auth.Controller.{
  establish_session, session_user, challenged, failed_token, begin_challenge, complete_login,
  answer_credentials, LoginData, failed_login, login, welcome, audit_login, token_accepted,
  answer_token, answer_pending, accept_token, reject_token, verify_two_factor,
}

-- The user of that name, whose password argon2 accepted.
pub record IsVerified (env : Env) (w : World) (username password : String) (user : UserRecord)
    : Type 0 where
  pub found : find_by_username username w.users ≡ some user
  pub verified : env.verify user.password_hash password ≡ some true

-- A session that holds the user and nothing else.
abbrev pub session_of : UserRecord → SessionData
session_of user = record empty_session { user = some (session_user user) }

-- The session after a login: as before; with a challenge for a verified user who has TOTP enabled;
-- or a new one with a verified user who has not.
pub data LoginOutcome (env : Env) (w : World) (username password : String) (s : SessionData)
    : Type 0 where
  unchanged : s ≡ w.session → LoginOutcome env w username password s
  challenge :
      (user : UserRecord)
      → IsVerified env w username password user
      → user.totp_enabled ≡ 1
      → s ≡ record w.session {
        pending2fa = some (record { user_id = user.id; username = user.username });
      }
      → LoginOutcome env w username password s
  established :
      (user : UserRecord)
      → IsVerified env w username password user
      → user.totp_enabled ≢ 1
      → s ≡ session_of user
      → LoginOutcome env w username password s

session-audit : (env : Env) (i : _) (w : World) → (audit env i w).1.session ≡ w.session
unfolding audit
session-audit env i w = refl

pub session-save : (env : Env) (w : World) → (save_session env w).1.session ≡ w.session
unfolding save_session
session-save env w = ground arith

-- Regenerating fails and changes nothing, or gives an empty session.
pub regenerate_cases :
    (env : Env) (w : World)
    → IsLawful env
    → ((f : Failure) × (regenerate_session env w ≡ (err f, w)))
      ⊎ ((w' : World) × (regenerate_session env w ≡ (ok tt, w')) × (w'.session ≡ empty_session))
unfolding regenerate_session
regenerate_cases env w law = elim (Option-cases (env.regenerate w.sid w.sessions)) [
  | inl failed ↦ inl (unexpected "regenerate", rw failed)
  | inr ((sid', fresh, rows), done) ↦ inr (
    record w { sid = sid'; session = fresh; sessions = rows },
    rw done,
    law.regenerate_empty w.sid w.sessions sid' fresh rows done,
  )
]

-- Establishing a session for a user leaves the old session or gives one with that user alone.
session-establish :
    (env : Env) (u : SessionUser) (w : World)
    → IsLawful env
    → ((establish_session env u w).1.session ≡ w.session)
      ⊎ ((establish_session env u w).1.session ≡ record empty_session { user = some u })
unfolding establish_session
session-establish env u w law = elim (regenerate_cases env w law) [
  | inl (f, failed) ↦ inl (rw (establish_session, failed))
  | inr (w', done, empty) ↦ inr (
      rw (establish_session, done)
        (session-save env (set_session (record w'.session { user = some u }) w')
          ∙ ap (λ (s : SessionData). record s { user = some u }) empty))
]

session-complete_login :
    (env : Env) (user : UserRecord) (w : World)
    → IsLawful env
    → ((complete_login env user w).1.session ≡ w.session)
      ⊎ ((complete_login env user w).1.session ≡ session_of user)
unfolding complete_login
session-complete_login env user w law =
    let frame : (complete_login env user w).1.session
        ≡ (establish_session env (session_user user) w).1.session =
      frame-bind (λ (v : World). v.session) (establish_session env (session_user user))
        (λ _. audit_login env user) w (λ _ v. refl) in
    elim (session-establish env (session_user user) w law) [
      | inl e ↦ inl (frame ∙ e)
      | inr e ↦ inr (frame ∙ e)
    ]

session-begin_challenge :
    (env : Env) (user : UserRecord) (w : World)
    → (begin_challenge env user w).1.session ≡ (challenged user w).session
session-begin_challenge env user w =
    unfold begin_challenge in
    frame-bind (λ (v : World). v.session) (save_session env)
      (λ _. pure (send_success (record { two_factor_required = true; user = none }) 200))
      (challenged user w) (λ _ v. refl)
    ∙ session-save env (challenged user w)

-- Credentials that were accepted belong to the user of that name.
pub verify_credentials-IsVerified :
    (env : Env) (w : World) (username password : String) {user : UserRecord}
    → verify_credentials env username password w.users ≡ some user
    → IsVerified env w username password user
unfolding verify_credentials
verify_credentials-IsVerified env w username password h =
    let (found, verified) = checked-some env password (find_by_username username w.users) h in
    record { found = found; verified = verified }

completed_outcome :
    (env : Env) (w : World) (username password : String) (user : UserRecord)
    → IsLawful env
    → IsVerified env w username password user
    → user.totp_enabled ≢ 1
    → LoginOutcome env w username password
        ((complete_login env user >> pure (welcome user)) w).1.session
completed_outcome env w username password user law v off =
    let frame : ((complete_login env user >> pure (welcome user)) w).1.session
        ≡ (complete_login env user w).1.session =
      frame-bind (λ (x : World). x.session) (complete_login env user) (λ _. pure (welcome user)) w
        (λ _ x. refl) in
    elim (session-complete_login env user w law) [
      | inl e ↦ unchanged (frame ∙ e)
      | inr e ↦ established user v off (frame ∙ e)
    ]

answer_credentials_outcome :
    (env : Env) (w : World) (username password : String) (o : Option UserRecord)
    → IsLawful env
    → ((user : UserRecord) → o ≡ some user → IsVerified env w username password user)
    → LoginOutcome env w username password (answer_credentials env username o w).1.session
unfolding answer_credentials
answer_credentials_outcome env w username password none law v = unchanged (
    frame-bind (λ (x : World). x.session) (audit env (failed_login env username))
      (λ _. throw {A = Response LoginData} (unauthorized_error "Invalid username or password")) w
      (λ _ x. refl))
answer_credentials_outcome env w username password (some user) law v =
    when_cases (λ r. LoginOutcome env w username password r.1.session) (user.totp_enabled == 1)
      (begin_challenge env user) (complete_login env user >> pure (welcome user)) w
      (λ on. challenge user (v user refl) (ground (arith, on)) (session-begin_challenge env user w))
      (λ off.
        completed_outcome env w username password user law (v user refl)
          (λ (e : user.totp_enabled ≡ 1). ground (arith, off)))

-- A login, whether it returns or throws, leaves the session as it was, or puts a challenge into it
-- for a user of that name whose password argon2 accepted and who has TOTP enabled, or replaces it by
-- a session of such a user who has not, with nothing else in it.
pub login_outcome :
    (env : Env) (w : World) (username password : String)
    → IsLawful env
    → LoginOutcome env w username password (login env username password w).1.session
unfolding login
login_outcome env w username password law =
    answer_credentials_outcome env w username password
      (verify_credentials env username password w.users) law
      (λ user h. verify_credentials-IsVerified env w username password h)

-- What the TOTP step demands: the challenge of the session, the user that it names, and a code that
-- otplib accepts for the user's secret.
pub record IsAnswered (env : Env) (w : World) (token : String) (user : UserRecord) : Type 0 where
  pub pending : Pending2fa
  pub challenged : w.session.pending2fa ≡ some pending
  pub found : find_by_id pending.user_id w.users ≡ some user
  pub secret : String
  pub has_secret : user.totp_secret ≡ some secret
  pub accepted : env.verify_token token secret ≡ true

-- The session after a TOTP step: as before; without its challenge, where a library failed; or a new
-- one with the user of the challenge.
pub data TokenOutcome (env : Env) (w : World) (token : String) (s : SessionData) : Type 0 where
  unchanged : s ≡ w.session → TokenOutcome env w token s
  dropped : s ≡ record w.session { pending2fa = none } → TokenOutcome env w token s
  established :
      (user : UserRecord)
      → IsAnswered env w token user
      → s ≡ session_of user
      → TokenOutcome env w token s

session-reject_token :
    (env : Env) (username : String) (w : World)
    → (reject_token env username w).1.session ≡ w.session
unfolding reject_token
session-reject_token env username w =
    frame-bind (λ (x : World). x.session) (audit env (failed_token env username))
      (λ _. throw {A = Response PublicUser} (unauthorized_error "Invalid authentication code")) w
      (λ _ x. refl)

session-accept_token :
    (env : Env) (user : UserRecord) (w : World)
    → IsLawful env
    → ((accept_token env user w).1.session ≡ record w.session { pending2fa = none })
      ⊎ ((accept_token env user w).1.session ≡ session_of user)
session-accept_token env user w law =
    let v : World = set_session (record w.session { pending2fa = none }) w in
    let frame : (accept_token env user w).1.session ≡ (complete_login env user v).1.session =
      unfold accept_token in
      frame-bind (λ (x : World). x.session) (complete_login env user)
        (λ _. pure (send_success (to_public_user user) 200)) v (λ _ x. refl) in
    elim (session-complete_login env user v law) [
      | inl e ↦ inl (frame ∙ e)
      | inr e ↦ inr (frame ∙ e)
    ]

pub token_accepted-some :
    (env : Env) (token : String) (user : UserRecord)
    → token_accepted env token user ≡ true
    → (secret : String) × (user.totp_secret ≡ some secret) × (env.verify_token token secret ≡ true)
unfolding token_accepted
token_accepted-some env token user h = accepted user.totp_secret refl
  where
    accepted :
        (o : Option String)
        → user.totp_secret ≡ o
        → (secret : String) × (user.totp_secret ≡ some secret)
          × (env.verify_token token secret ≡ true)
    accepted none e = ground arith
    accepted (some secret) e = (secret, e, ground arith)

answer_token_outcome :
    (env : Env) (w : World) (token : String) (pending : Pending2fa) (o : Option UserRecord)
    → IsLawful env
    → w.session.pending2fa ≡ some pending
    → find_by_id pending.user_id w.users ≡ o
    → TokenOutcome env w token (answer_token env token pending o w).1.session
unfolding answer_token
answer_token_outcome env w token pending none law e f =
    unchanged (session-reject_token env pending.username w)
answer_token_outcome env w token pending (some user) law e f =
    when_cases (λ r. TokenOutcome env w token r.1.session) (token_accepted env token user)
      (accept_token env user) (reject_token env pending.username) w
      (λ good.
        accepted (token_accepted-some env token user good) (session-accept_token env user w law))
      (λ bad. unchanged (session-reject_token env pending.username w))
  where
    accepted :
        ((secret : String) × (user.totp_secret ≡ some secret)
          × (env.verify_token token secret ≡ true))
        → ((accept_token env user w).1.session ≡ record w.session { pending2fa = none })
          ⊎ ((accept_token env user w).1.session ≡ session_of user)
        → TokenOutcome env w token (accept_token env user w).1.session
    accepted (secret, has, ok') (inl g) = dropped g
    accepted (secret, has, ok') (inr g) =
        established user
          (record {
            pending = pending;
            challenged = e;
            found = f;
            secret = secret;
            has_secret = has;
            accepted = ok';
          })
          g

answer_pending_outcome :
    (env : Env) (w : World) (token : String) (o : Option Pending2fa)
    → IsLawful env
    → w.session.pending2fa ≡ o
    → TokenOutcome env w token (answer_pending env token o w).1.session
answer_pending_outcome env w token none law e = unfold answer_pending in unchanged refl
answer_pending_outcome env w token (some pending) law e =
    unfold answer_pending in
    answer_token_outcome env w token pending (find_by_id pending.user_id w.users) law e refl

-- A TOTP step, whether it returns or throws, leaves the session as it was, or drops the challenge
-- where regenerating the session failed, or replaces the session by one of the user whom the challenge
-- names, with nothing else in it; then otplib has accepted the code for the secret of that user.
pub verify_two_factor_outcome :
    (env : Env) (w : World) (token : String)
    → IsLawful env
    → TokenOutcome env w token (verify_two_factor env token w).1.session
verify_two_factor_outcome env w token law =
    unfold verify_two_factor in answer_pending_outcome env w token w.session.pending2fa law refl
