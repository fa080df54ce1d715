-- ===== src/Auth/Greetings.antt =====
-- That a login with an accepted password is answered (src/controllers/auth.controller.ts).
use pm2manager.Common.{
  ◌≡◌, refl, inl, inr, String, Bool, template, true, false, none, some, ◌==◌, Option-cases, is_some,
  List, if◌then◌else◌, ap, ◌∙◌,
}
use pm2manager.Exec.{Exec, continue, modify, ◌>>◌, ◌>>=◌, ok, pure, when}
use pm2manager.Http.{Response, send_success}
use pm2manager.Users.{UserRecord}
use pm2manager.Sessions.{SessionData, SessionRow}
use pm2manager.Activity.{login_success}
use pm2manager.World.{event, Env, World, set_session, regenerate_session, save_session}
use pm2manager.World.Audit.{audit_lem}
use pm2manager.Auth.Service.{verify_credentials}
use pm2manager.Auth.Controller.{
  establish_session, session_user, challenged, begin_challenge, complete_login, answer_credentials,
  LoginData, login, welcome, audit_login,
}

-- The session library and its store answer.
pub record IsAvailable (env : Env) : Type 0 where
  pub regenerates :
      (sid : String) (rows : List SessionRow) → is_some (env.regenerate sid rows) ≡ true
  pub saves :
      (sid : String) (s : SessionData) (rows : List SessionRow)
      → is_some (env.save sid s rows) ≡ true

bind_ok :
    {A B : Type 0} {a : A} {b : B} (m : Exec World A) (f : A → Exec World B) (w : World)
    → (m w).0 ≡ ok a
    → ((v : World) → (f a v).0 ≡ ok b)
    → ((m >>= f) w).0 ≡ ok b
bind_ok m f w h k = ap (λ q. (continue q f (m w).1).0) h ∙ k (m w).1

when_ok :
    {A : Type 0} {x y : A} (b : Bool) (m n : Exec World A) (w : World)
    → (m w).0 ≡ ok x
    → (n w).0 ≡ ok y
    → (when b m n w).0 ≡ ok (if b then x else y)
when_ok true m n w h k = h
when_ok false m n w h k = k

save_ok : (env : Env) (w : World) → IsAvailable env → (save_session env w).0 ≡ ok tt
unfolding save_session
save_ok env w a =
    let there = a.saves w.sid w.session w.sessions in
    elim (Option-cases (env.save w.sid w.session w.sessions)) [
      | inl failed ↦ let wrong = rw failed at there in absurd (cc)
      | inr (rows, done) ↦ rw done refl
    ]

regenerate_ok : (env : Env) (w : World) → IsAvailable env → (regenerate_session env w).0 ≡ ok tt
unfolding regenerate_session
regenerate_ok env w a =
    let there = a.regenerates w.sid w.sessions in
    elim (Option-cases (env.regenerate w.sid w.sessions)) [
      | inl failed ↦ let wrong = rw failed at there in absurd (cc)
      | inr (r, done) ↦ rw done refl
    ]

complete_ok :
    (env : Env) (user : UserRecord) (w : World)
    → IsAvailable env
    → (complete_login env user w).0 ≡ ok tt
unfolding complete_login establish_session
complete_ok env user w a =
    bind_ok (establish_session env (session_user user)) (λ _. audit_login env user) w
      (bind_ok (regenerate_session env >> modify put) (λ _. save_session env) w
        (bind_ok (regenerate_session env) (λ _. modify put) w (regenerate_ok env w a) (λ v. refl))
        (λ v. save_ok env v a))
      (λ v.
        ap (λ r. r.0)
          (audit_lem env
            (event env login_success (template "User \"" user.username "\" logged in")
              user.username)
            v))
  where
    put : World → World
    put v = set_session (record v.session { user = some (session_user user) }) v

-- What a user with these credentials is answered.
abbrev pub greeting : UserRecord → Response LoginData
greeting user =
    if user.totp_enabled == 1
    then send_success (record { two_factor_required = true; user = none }) 200
    else welcome user

pub login_greets :
    (env : Env) (w : World) (username password : String) (user : UserRecord)
    → IsAvailable env
    → verify_credentials env username password w.users ≡ some user
    → (login env username password w).0 ≡ ok (greeting user)
unfolding login answer_credentials begin_challenge
login_greets env w username password user a h =
    ap (λ o. (answer_credentials env username o w).0) h ∙ greeted
  where
    greeted : (answer_credentials env username (some user) w).0 ≡ ok (greeting user)
    greeted =
        when_ok (user.totp_enabled == 1) (begin_challenge env user)
          (complete_login env user >> pure (welcome user)) w
          (bind_ok (modify (challenged user) >> save_session env)
            (λ _. pure (send_success (record { two_factor_required = true; user = none }) 200)) w
            (save_ok env (challenged user w) a) (λ v. refl))
          (bind_ok (complete_login env user) (λ _. pure (welcome user)) w (complete_ok env user w a)
            (λ v. refl))
