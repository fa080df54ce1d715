-- ===== src/Auth/Frames.antt =====
-- The handlers that do not change who is signed in or challenged
-- (src/controllers/auth.controller.ts).
use pm2manager.Common.{
  ◌≡◌, refl, String, Option, none, some, ◌==◌, is_blank, or_else, ◌⊎◌, inl, inr, Option-cases,
}
use pm2manager.Exec.{Frames, Frames-bind, Frames-when, pure, focus, ◌>>◌, bind_view}
use pm2manager.Http.{Response, send_success}
use pm2manager.Users.{UserRecord, find_by_id}
use pm2manager.Sessions.{SessionUser, Pending2fa, SessionData, empty_session}
use pm2manager.Activity.{ActivityInput}
use pm2manager.World.{Env, World, audit, destroy_session}
use pm2manager.Auth.Service.{verify_token, verify_password, change_password as change_user_password}
use pm2manager.Auth.Controller.{
  current_user, loaded_user, loaded, required_user, change_password, setup_two_factor,
  enable_two_factor, confirm_secret, disable_two_factor, logout, audit_logout,
}

-- The user of the session and its challenge.
abbrev pub identity : World → Option SessionUser × Option Pending2fa
identity w = (w.session.user, w.session.pending2fa)

identity-audit : (env : Env) (i : _) → Frames identity (audit env i)
unfolding audit
identity-audit env i w = refl

identity-required_user : (o : Option SessionUser) → Frames identity (required_user o)
identity-required_user none w = refl
identity-required_user (some u) w = refl

identity-current_user : Frames identity current_user
unfolding current_user
identity-current_user w = identity-required_user w.session.user w

identity-loaded : (o : Option UserRecord) → Frames identity (loaded o)
identity-loaded none w = refl
identity-loaded (some u) w = refl

identity-loaded_user : Frames identity loaded_user
identity-loaded_user =
    unfold loaded_user in
    Frames-bind identity current_user _ identity-current_user
      (λ u w. identity-loaded (find_by_id u.id w.users) w)

-- The last steps of a handler: an audit row and the response.
identity-audited :
    {A : Type 0} (env : Env) (i : ActivityInput) (r : Response A)
    → Frames identity (audit env i >> pure r)
identity-audited env i r =
    Frames-bind identity (audit env i) (λ _. pure r) (identity-audit env i) (λ _ w. refl)

pub identity-change_password :
    (env : Env) (current fresh : String) → Frames identity (change_password env current fresh)
unfolding change_password
identity-change_password env current fresh =
    Frames-bind identity current_user _ identity-current_user (λ u.
      Frames-bind identity
        (focus (λ w. w.users) (λ t w. record w { users = t })
          (change_user_password env u.id current fresh))
        (λ _. audit env _ >> pure _) (λ w. refl) (λ _. identity-audited env _ _))

pub identity-setup_two_factor :
    (env : Env) (issuer : String) → Frames identity (setup_two_factor env issuer)
unfolding setup_two_factor
identity-setup_two_factor env issuer =
    Frames-bind identity loaded_user _ identity-loaded_user
      (λ u. Frames-when identity (u.totp_enabled == 1) _ _ (λ w. refl) (λ w. refl))

identity-confirm_secret :
    (env : Env) (token : String) (u : SessionUser) (secret : String)
    → Frames identity (confirm_secret env token u secret)
unfolding confirm_secret
identity-confirm_secret env token u secret =
    Frames-when identity (verify_token env token secret) _ _ (λ w. identity-audited env _ _ _)
      (λ w. refl)

pub identity-enable_two_factor :
    (env : Env) (token : String) → Frames identity (enable_two_factor env token)
unfolding enable_two_factor
identity-enable_two_factor env token =
    Frames-bind identity current_user _ identity-current_user (λ u w.
      Frames-when identity (is_blank w.session.pending_totp_secret) _ _ (λ w'. refl)
        (identity-confirm_secret env token u (or_else w.session.pending_totp_secret "")) w)

pub identity-disable_two_factor :
    (env : Env) (password : String) → Frames identity (disable_two_factor env password)
unfolding disable_two_factor
identity-disable_two_factor env password =
    Frames-bind identity loaded_user _ identity-loaded_user (λ u.
      Frames-when identity (verify_password env u.password_hash password) _ _
        (λ w. identity-audited env _ _ _) (λ w. refl))

session-audit_logout :
    (env : Env) (o : Option SessionUser) → Frames (λ (w : World). w.session) (audit_logout env o)
unfolding audit
session-audit_logout env none w = refl
session-audit_logout env (some u) w = refl

-- A logout leaves the session, where the store fails, or an empty one.
pub logout_session :
    (env : Env) (w : World)
    → ((logout env w).1.session ≡ w.session) ⊎ ((logout env w).1.session ≡ empty_session)
unfolding logout
logout_session env w =
    let after : World = (audit_logout env w.session.user w).1 in
    let same : after.session ≡ w.session = session-audit_logout env w.session.user w in
    bind_view (λ (v : World). v.session) Kept (audit_logout env w.session.user)
      (λ _. destroy_session env >> pure (send_success tt 200)) w (inl same)
      (λ _.
        bind_view (λ (v : World). v.session) Kept (destroy_session env)
          (λ _. pure (send_success tt 200)) after (destroyed after same)
          (λ _. destroyed after same))
  where
    Kept : SessionData → Type 0
    Kept s = (s ≡ w.session) ⊎ (s ≡ empty_session)

    destroyed : (v : World) → v.session ≡ w.session → Kept (destroy_session env v).1.session
    destroyed v same = elim (Option-cases (env.destroy v.sid v.sessions)) [
      | inl failed ↦ inl (rw failed same)
      | inr (rows, done) ↦ inr (rw done)
    ]
