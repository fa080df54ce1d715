-- ===== src/Auth/Reach.antt =====
-- Sessions over time: any sequence of requests of one session to the handlers of
-- src/controllers/auth.controller.ts, with any changes that other requests make between them.
use mathlib.Core.Path.{subst}
use pm2manager.Common.{
  find_passes, ℕ, ◌≡◌, refl, sym, ap, ◌∙◌, ◌⊎◌, inl, inr, String, Bool, true, false, Option, none,
  some, ◌==◌, arith,
}
use pm2manager.Users.{Users, UserRecord, find_by_id}
use pm2manager.Sessions.{SessionUser, Pending2fa, SessionData, empty_session}
use pm2manager.World.{Env, IsLawful, World}
use pm2manager.Auth.Controller.{
  session_user, login, verify_two_factor, logout, change_password, setup_two_factor,
  enable_two_factor, disable_two_factor,
}
use pm2manager.Auth.Login.{
  unchanged, challenge, established, dropped, IsVerified, IsAnswered, LoginOutcome, TokenOutcome,
  login_outcome, verify_two_factor_outcome,
}
use pm2manager.Auth.Login
use pm2manager.Auth.Frames.{
  identity, identity-change_password, identity-setup_two_factor, identity-enable_two_factor,
  identity-disable_two_factor, logout_session,
}

-- A request to one of the handlers, with what it carries.
pub data Action : Type 0 where
  sign_in : (username password : String) → Action
  answer : (token : String) → Action
  sign_out : Action
  new_password : (current fresh : String) → Action
  setup : (issuer : String) → Action
  enable : (token : String) → Action
  disable : (password : String) → Action

unfoldable pub run : Env → Action → World → World
unfolding login verify_two_factor logout change_password setup_two_factor enable_two_factor
    disable_two_factor
run env (sign_in username password) w = (login env username password w).1
run env (answer token) w = (verify_two_factor env token w).1
run env sign_out w = (logout env w).1
run env (new_password current fresh) w = (change_password env current fresh w).1
run env (setup issuer) w = (setup_two_factor env issuer w).1
run env (enable token) w = (enable_two_factor env token w).1
run env (disable password) w = (disable_two_factor env password w).1

pub data Reach : World → Type 0 where
  start : {w : World} → w.session ≡ empty_session → Reach w
  act :
      {w w' : World} (r : Reach w) (env : Env) (law : IsLawful env) (a : Action)
      → w' ≡ run env a w
      → Reach w'
  others : {w w' : World} (r : Reach w) → w'.session ≡ w.session → Reach w'

-- The request was a login with the password of the user of that id; `second` says whether that user
-- had TOTP enabled.
abbrev pub ByLogin : Env → World → Action → ℕ → Bool → Type 0
ByLogin env w (sign_in username password) id second =
    (user : UserRecord) × IsVerified env w username password user
    × (user.id ≡ id)
    × ((user.totp_enabled == 1) ≡ second)
ByLogin _ _ _ _ _ = ⊥

-- The request was a TOTP step with a code for the secret of the user of that id.
abbrev pub ByToken : Env → World → Action → ℕ → Type 0
ByToken env w (answer token) id = (user : UserRecord) × IsAnswered env w token user × (user.id ≡ id)
ByToken _ _ _ _ = ⊥

-- Some request before gave the password, or the code.
abbrev pub GavePassword : {w : World} → Reach w → ℕ → Bool → Type 0
GavePassword (start e) id second = ⊥
GavePassword (act {w} r env law a e) id second =
    ByLogin env w a id second ⊎ GavePassword r id second
GavePassword (others r e) id second = GavePassword r id second

abbrev pub GaveToken : {w : World} → Reach w → ℕ → Type 0
GaveToken (start e) id = ⊥
GaveToken (act {w} r env law a e) id = ByToken env w a id ⊎ GaveToken r id
GaveToken (others r e) id = GaveToken r id

abbrev pub Authenticated : {w : World} → Reach w → ℕ → Type 0
Authenticated r id = GavePassword r id false ⊎ (GavePassword r id true × GaveToken r id)

pub record IsJustified {w : World} (r : Reach w) (s : SessionData) : Type 0 where
  pub user : (u : SessionUser) → s.user ≡ some u → Authenticated r u.id
  pub pending : (p : Pending2fa) → s.pending2fa ≡ some p → GavePassword r p.user_id true

-- An empty session has nothing to justify; a session with the same user and challenge has the same.
IsJustified-empty :
    {w : World} (r : Reach w) (s : SessionData) → s ≡ empty_session → IsJustified r s
IsJustified-empty r s e = record {
  user = λ u h. absurd (nobody (ap (λ (t : SessionData). t.user) e) h);
  pending = λ p h. absurd (nobody (ap (λ (t : SessionData). t.pending2fa) e) h);
}
  where
    nobody : {A : Type 0} {o : Option A} {a : A} → o ≡ none → o ≡ some a → ⊥
    nobody h k = cc

module _ {w w' : World} (r : Reach w) (env : Env) (law : IsLawful env) (a : Action)
    (e : w' ≡ run env a w) where
  abbrev next : Reach w'
  next = act r env law a e

  -- What was given before is still given.
  later : (id : ℕ) → Authenticated r id → Authenticated next id
  later id (inl h) = inl (inr h)
  later id (inr (h, k)) = inr (inr h, inr k)

  IsJustified-later :
      (s s' : SessionData)
      → IsJustified r s
      → s'.user ≡ s.user
      → s'.pending2fa ≡ s.pending2fa
      → IsJustified next s'
  IsJustified-later s s' j same_user same_pending = record {
    user = λ u h. later u.id (j.user u (sym same_user ∙ h));
    pending = λ p h. inr (j.pending p (sym same_pending ∙ h));
  }

  -- A session that holds only the user given.
  IsJustified-session_of :
      (user : UserRecord) (s : SessionData)
      → s ≡ Login.session_of user
      → Authenticated next user.id
      → IsJustified next s
  IsJustified-session_of user s h auth = record {
    user = λ u k.
        let same : some u ≡ some (session_user user) = sym k ∙ ap (λ (t : SessionData). t.user) h in
        subst (λ i. Authenticated next i) (ap (λ (x : SessionUser). x.id) (some_eq same)) auth;
    pending = λ p k. absurd (nobody (ap (λ (t : SessionData). t.pending2fa) h) k);
  }
    where
      nobody : {A : Type 0} {o : Option A} {b : A} → o ≡ none → o ≡ some b → ⊥
      nobody h k = cc

      some_eq : {A : Type 0} {x y : A} → some x ≡ some y → y ≡ x
      some_eq h = cc

abbrev pending_id : Option Pending2fa → ℕ
pending_id none = 0
pending_id (some p) = p.user_id

find_by_id-id : (id : ℕ) (t : Users) {u : UserRecord} → find_by_id id t ≡ some u → u.id ≡ id
unfolding find_by_id
find_by_id-id id t {u} h =
    ground (arith, find_passes (λ (v : UserRecord). v.id == id) t.rows {a = u})

module _ {w w' : World} (r : Reach w) (env : Env) (law : IsLawful env)
    (ih : IsJustified r w.session) where
  sign_in-IsJustified :
      (username password : String) (e : w' ≡ run env (sign_in username password) w)
      → LoginOutcome env w username password w'.session
      → IsJustified (act r env law (sign_in username password) e) w'.session
  sign_in-IsJustified username password e (unchanged q) =
      IsJustified-later r env law _ e w.session w'.session ih (ap (λ (s : SessionData). s.user) q)
        (ap (λ (s : SessionData). s.pending2fa) q)
  sign_in-IsJustified username password e (challenge user v on q) = record {
    user =
        λ u h. later r env law _ e u.id (ih.user u (sym (ap (λ (s : SessionData). s.user) q) ∙ h));
    pending = λ p h. inl (
      user,
      v,
      ap pending_id (sym (ap (λ (s : SessionData). s.pending2fa) q) ∙ h),
      ground (arith, on),
    );
  }
  sign_in-IsJustified username password e (established user v off q) =
      IsJustified-session_of r env law _ e user w'.session q
        (inl (inl (user, v, refl, ground (arith, off))))

  answer-IsJustified :
      (token : String) (e : w' ≡ run env (answer token) w)
      → TokenOutcome env w token w'.session
      → IsJustified (act r env law (answer token) e) w'.session
  answer-IsJustified token e (unchanged q) =
      IsJustified-later r env law _ e w.session w'.session ih (ap (λ (s : SessionData). s.user) q)
        (ap (λ (s : SessionData). s.pending2fa) q)
  answer-IsJustified token e (dropped q) = record {
    user =
        λ u h. later r env law _ e u.id (ih.user u (sym (ap (λ (s : SessionData). s.user) q) ∙ h));
    pending = λ p h. absurd (nothing (ap (λ (s : SessionData). s.pending2fa) q) h);
  }
    where
      nothing : {A : Type 0} {o : Option A} {b : A} → o ≡ none → o ≡ some b → ⊥
      nothing h k = cc
  answer-IsJustified token e (established user a q) =
      IsJustified-session_of r env law _ e user w'.session q (
        inr (
          inr (
              subst (λ i. GavePassword r i true)
                (sym (find_by_id-id a.pending.user_id w.users a.found))
                (ih.pending a.pending a.challenged)),
          inl (user, a, refl),
        ))

  framed-IsJustified :
      (a : Action) (e : w' ≡ run env a w)
      → identity w' ≡ identity w
      → IsJustified (act r env law a e) w'.session
  framed-IsJustified a e same =
      IsJustified-later r env law a e w.session w'.session ih (ap (λ i. i.0) same)
        (ap (λ i. i.1) same)

  act-IsJustified : (a : Action) (e : w' ≡ run env a w) → IsJustified (act r env law a e) w'.session
  unfolding run
  act-IsJustified (sign_in username password) e = sign_in-IsJustified username password e (
      subst (λ (s : SessionData). LoginOutcome env w username password s)
        (ap (λ (v : World). v.session) (sym e)) (login_outcome env w username password law))
  act-IsJustified (answer token) e = answer-IsJustified token e (
      subst (λ (s : SessionData). TokenOutcome env w token s)
        (ap (λ (v : World). v.session) (sym e)) (verify_two_factor_outcome env w token law))
  act-IsJustified sign_out e = elim (logout_session env w) [
    | inl same ↦
        framed-IsJustified sign_out e
          (ap identity e ∙ ap (λ (s : SessionData). (s.user, s.pending2fa)) same)
    | inr empty ↦
        IsJustified-empty (act r env law sign_out e) w'.session
          (ap (λ (v : World). v.session) e ∙ empty)
  ]
  act-IsJustified (new_password current fresh) e =
      framed-IsJustified (new_password current fresh) e
        (ap identity e ∙ identity-change_password env current fresh w)
  act-IsJustified (setup issuer) e =
      framed-IsJustified (setup issuer) e (ap identity e ∙ identity-setup_two_factor env issuer w)
  act-IsJustified (enable token) e =
      framed-IsJustified (enable token) e (ap identity e ∙ identity-enable_two_factor env token w)
  act-IsJustified (disable password) e =
      framed-IsJustified (disable password) e
        (ap identity e ∙ identity-disable_two_factor env password w)

Reach-IsJustified : {w : World} (r : Reach w) → IsJustified r w.session
Reach-IsJustified {w} (start e) = IsJustified-empty (start e) w.session e
Reach-IsJustified (act r env law a e) = act-IsJustified r env law (Reach-IsJustified r) a e
Reach-IsJustified (others r e) =
    let before = Reach-IsJustified r in
    record {
      user = λ u h. before.user u (sym (ap (λ (s : SessionData). s.user) e) ∙ h);
      pending = λ p h. before.pending p (sym (ap (λ (s : SessionData). s.pending2fa) e) ∙ h);
    }

-- However a session came about from an empty one, by any requests to the handlers and any changes by
-- other requests between them: if it has a user, some login gave that user's password while the user
-- had TOTP disabled, or some login gave it while TOTP was enabled and some TOTP step gave an accepted
-- code for that user's secret.
pub session-Authenticated :
    {w : World} (r : Reach w) (u : SessionUser) → w.session.user ≡ some u → Authenticated r u.id
session-Authenticated r u h = (Reach-IsJustified r).user u h
