-- ===== src/Auth/Answers.antt =====
-- What a login and a TOTP step answer, beside what they do to the session
-- (src/controllers/auth.controller.ts).
use mathlib.Core.Path.{subst}
use pm2manager.Common.{
  ◌≡◌, refl, sym, ◌≢◌, ◌⊎◌, inl, inr, String, template, true, Option, none, some, arith, ◌==◌,
  Option-cases, ap, ◌∙◌,
}
use pm2manager.Errors.{unauthorized_error, Failure, unexpected, app}
use pm2manager.Exec.{Result, Exec, continue, modify, ◌>>◌, ◌>>=◌, throw, ok, err, pure, when_cases}
use pm2manager.Http.{Response, send_success}
use pm2manager.Users.{UserRecord, find_by_id}
use pm2manager.Sessions.{Pending2fa, SessionData, empty_session}
use pm2manager.Activity.{login_success}
use pm2manager.World.{
  event, Env, IsLawful, World, audit, set_session, regenerate_session, save_session,
}
use pm2manager.World.Audit.{audit_lem}
use pm2manager.Auth.Service.{PublicUser, to_public_user, verify_credentials}
use pm2manager.Auth.Controller.{
  establish_session, session_user, challenged, failed_token, begin_challenge, complete_login,
  answer_credentials, LoginData, failed_login, login, welcome, audit_login, token_accepted,
  answer_token, answer_pending, accept_token, reject_token, verify_two_factor,
}
use pm2manager.Auth.Login.{
  IsVerified, IsAnswered, session_of, regenerate_cases, verify_credentials-IsVerified,
  token_accepted-some,
}

-- An action fails, or it returns `a` and leaves the session `s`.
abbrev pub Ends : {A : Type 0} → A → SessionData → Result A × World → Type 0
Ends a s r = ((f : Failure) × (r.0 ≡ err f)) ⊎ ((r.0 ≡ ok a) × (r.1.session ≡ s))

bind-Ends :
    {A B : Type 0} {a : A} {b : B} {s t : SessionData} (m : Exec World A) (f : A → Exec World B)
    (w : World)
    → Ends a s (m w)
    → ((v : World) → v.session ≡ s → Ends b t (f a v))
    → Ends b t ((m >>= f) w)
bind-Ends m f w (inl (e, failed)) k = inl (e, ap (λ q. (continue q f (m w).1).0) failed)
bind-Ends {b} {t} m f w (inr (returned, p)) k =
    subst (λ q. Ends b t (continue q f (m w).1)) (sym returned) (k (m w).1 p)

save-Ends :
    (env : Env) (s : SessionData) (w : World) → w.session ≡ s → Ends tt s (save_session env w)
unfolding save_session
save-Ends env s w e = elim (Option-cases (env.save w.sid w.session w.sessions)) [
  | inl failed ↦ inl (unexpected "session store", rw failed refl)
  | inr (rows, done) ↦ inr (rw done (refl, e))
]

regenerate-Ends :
    (env : Env) (w : World) → IsLawful env → Ends tt empty_session (regenerate_session env w)
regenerate-Ends env w law = elim (regenerate_cases env w law) [
  | inl (f, failed) ↦ inl (f, ap (λ r. r.0) failed)
  | inr (w', done, empty) ↦ inr (ap (λ r. r.0) done, ap (λ r. r.1.session) done ∙ empty)
]

establish-Ends :
    (env : Env) (user : UserRecord) (w : World)
    → IsLawful env
    → Ends tt (session_of user) (establish_session env (session_user user) w)
unfolding establish_session
establish-Ends env user w law =
    let put : World → World =
      λ v. set_session (record v.session { user = some (session_user user) }) v in
    bind-Ends (regenerate_session env >> modify put) (λ _. save_session env) w
      (bind-Ends (regenerate_session env) (λ _. modify put) w (regenerate-Ends env w law)
        (λ v e.
          inr (refl, ap (λ (s : SessionData). record s { user = some (session_user user) }) e)))
      (λ v e. save-Ends env (session_of user) v e)

complete-Ends :
    (env : Env) (user : UserRecord) (w : World)
    → IsLawful env
    → Ends tt (session_of user) (complete_login env user w)
unfolding complete_login
complete-Ends env user w law =
    bind-Ends (establish_session env (session_user user)) (λ _. audit_login env user) w
      (establish-Ends env user w law)
      (λ v e.
        let audited =
          audit_lem env
            (event env login_success (template "User \"" user.username "\" logged in")
              user.username)
            v in
        inr (ap (λ r. r.0) audited, ap (λ r. r.1.session) audited ∙ e))

-- What a login comes to: it fails; or it asks for a code, where argon2 accepted the password of a user
-- with TOTP enabled, whom the session then names in its challenge; or it welcomes such a user without
-- TOTP, whom alone the new session holds.
pub data LoginAnswer (env : Env) (w : World) (username password : String)
    (r : Result (Response LoginData) × World) : Type 0 where
  refused : (f : Failure) → r.0 ≡ err f → LoginAnswer env w username password r
  asks :
      (user : UserRecord)
      → IsVerified env w username password user
      → user.totp_enabled ≡ 1
      → r.0 ≡ ok (send_success (record { two_factor_required = true; user = none }) 200)
      → r.1.session ≡ (challenged user w).session
      → LoginAnswer env w username password r
  welcomes :
      (user : UserRecord)
      → IsVerified env w username password user
      → user.totp_enabled ≢ 1
      → r.0 ≡ ok (welcome user)
      → r.1.session ≡ session_of user
      → LoginAnswer env w username password r

answer_credentials_answer :
    (env : Env) (w : World) (username password : String) (o : Option UserRecord)
    → IsLawful env
    → ((user : UserRecord) → o ≡ some user → IsVerified env w username password user)
    → LoginAnswer env w username password (answer_credentials env username o w)
unfolding answer_credentials
answer_credentials_answer env w username password none law v =
    refused (app (unauthorized_error "Invalid username or password")) (
      ap
        (λ q.
          (continue q
            (λ _.
              throw {A = Response LoginData} (unauthorized_error "Invalid username or password"))
            (audit env (failed_login env username) w).1).0)
        (ap (λ r. r.0) (audit_lem env (failed_login env username) w)))
answer_credentials_answer env w username password (some user) law v =
    when_cases (LoginAnswer env w username password) (user.totp_enabled == 1)
      (begin_challenge env user) (complete_login env user >> pure (welcome user)) w
      (λ on. elim (challenge-Ends env user w) [
        | inl (f, failed) ↦ refused f failed
        | inr (done, session) ↦ asks user (v user refl) (ground (arith, on)) done session
      ])
      (λ off.
        elim (bind-Ends (complete_login env user) (λ _. pure (welcome user)) w
          (complete-Ends env user w law) (λ x e. inr (refl, e))) [
            | inl (f, failed) ↦ refused f failed
            | inr (done, session) ↦
                welcomes user (v user refl) (λ (e : user.totp_enabled ≡ 1). ground (arith, off))
                  done session
          ])
  where
    challenge-Ends :
        (env : Env) (user : UserRecord) (w : World)
        → Ends
            (send_success (record { two_factor_required = true; user = none }) 200)
            (challenged user w).session
            (begin_challenge env user w)
    challenge-Ends env user w =
        unfold begin_challenge in
        bind-Ends (modify (challenged user) >> save_session env)
          (λ _. pure (send_success (record { two_factor_required = true; user = none }) 200)) w
          (save-Ends env (challenged user w).session (challenged user w) refl)
          (λ x e. inr (refl, e))

pub login_answer :
    (env : Env) (w : World) (username password : String)
    → IsLawful env
    → LoginAnswer env w username password (login env username password w)
unfolding login
login_answer env w username password law =
    answer_credentials_answer env w username password
      (verify_credentials env username password w.users) law
      (λ user h. verify_credentials-IsVerified env w username password h)

-- What a TOTP step comes to: it fails, or it welcomes the user of the challenge whose code otplib accepted,
-- whom alone the new session holds.
pub data TokenAnswer (env : Env) (w : World) (token : String)
    (r : Result (Response PublicUser) × World) : Type 0 where
  refused : (f : Failure) → r.0 ≡ err f → TokenAnswer env w token r
  welcomes :
      (user : UserRecord)
      → IsAnswered env w token user
      → r.0 ≡ ok (send_success (to_public_user user) 200)
      → r.1.session ≡ session_of user
      → TokenAnswer env w token r

rejects :
    (env : Env) (w : World) (username token : String)
    → TokenAnswer env w token (reject_token env username w)
unfolding reject_token
rejects env w username token = refused (app (unauthorized_error "Invalid authentication code")) (
    ap
      (λ q.
        (continue q
          (λ _. throw {A = Response PublicUser} (unauthorized_error "Invalid authentication code"))
          (audit env (failed_token env username) w).1).0)
      (ap (λ r. r.0) (audit_lem env (failed_token env username) w)))

accepts :
    (env : Env) (w : World) (user : UserRecord)
    → IsLawful env
    → Ends (send_success (to_public_user user) 200) (session_of user) (accept_token env user w)
accepts env w user law =
    let v : World = set_session (record w.session { pending2fa = none }) w in
    unfold accept_token in
    bind-Ends (complete_login env user) (λ _. pure (send_success (to_public_user user) 200)) v
      (complete-Ends env user v law) (λ x e. inr (refl, e))

answer_token_answer :
    (env : Env) (w : World) (token : String) (pending : Pending2fa) (o : Option UserRecord)
    → IsLawful env
    → w.session.pending2fa ≡ some pending
    → find_by_id pending.user_id w.users ≡ o
    → TokenAnswer env w token (answer_token env token pending o w)
unfolding answer_token
answer_token_answer env w token pending none law e f = rejects env w pending.username token
answer_token_answer env w token pending (some user) law e f =
    when_cases (TokenAnswer env w token) (token_accepted env token user) (accept_token env user)
      (reject_token env pending.username) w
      (λ good.
        let (secret, has, accepted) = token_accepted-some env token user good in
        elim (accepts env w user law) [
          | inl (x, failed) ↦ refused x failed
          | inr (done, session) ↦
              welcomes user
                (record {
                  pending = pending;
                  challenged = e;
                  found = f;
                  secret = secret;
                  has_secret = has;
                  accepted = accepted;
                })
                done session
        ])
      (λ bad. rejects env w pending.username token)

answer_pending_answer :
    (env : Env) (w : World) (token : String) (o : Option Pending2fa)
    → IsLawful env
    → w.session.pending2fa ≡ o
    → TokenAnswer env w token (answer_pending env token o w)
answer_pending_answer env w token none law e =
    unfold answer_pending in refused (app (unauthorized_error "No pending 2FA challenge")) refl
answer_pending_answer env w token (some pending) law e =
    unfold answer_pending in
    answer_token_answer env w token pending (find_by_id pending.user_id w.users) law e refl

pub verify_two_factor_answer :
    (env : Env) (w : World) (token : String)
    → IsLawful env
    → TokenAnswer env w token (verify_two_factor env token w)
verify_two_factor_answer env w token law =
    unfold verify_two_factor in answer_pending_answer env w token w.session.pending2fa law refl
