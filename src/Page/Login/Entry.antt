-- ===== src/Page/Login/Entry.antt =====
-- The login page and the server's login together (public/static/js/login.js,
-- src/controllers/auth.controller.ts): where the forms lead. The schemas let a body through unchanged.
use mathlib.Core.Path.{subst}
use pm2manager.Common.{ℕ, ◌≡◌, ◌≢◌, sym, ap, ◌∙◌, String, true, false, none, some, List, str_eq}
use pm2manager.Exec.{Exec, Result, err}
use pm2manager.Http.{Response, async_handler, send_success}
use pm2manager.Users.{UserRecord}
use pm2manager.World.{Env, IsLawful, World}
use pm2manager.Auth.Service.{PublicUser}
use pm2manager.Auth.Controller.{verify_two_factor, challenged}
use pm2manager.Auth.Login.{IsVerified, IsAnswered, session_of}
use pm2manager.Auth.Answers
use pm2manager.Auth.Answers.{TokenAnswer, verify_two_factor_answer}
use pm2manager.Client.Recovery.{Body, token_in, serve, issuing}
use pm2manager.Page.Login.{
  LoginPage, LoginBody, credentials, code_token, login_answered, code_answered, clear_error,
  submit_login, submit_code,
}
use pm2manager.Page.Login.Fresh.{post_json_lem}
use pm2manager.Page.Login.Answered.{
  AuthData, of_user, asks_code, labelled, login_handler, code_handler, shown, shown-err, shown-ok,
  mapped, labelling_lem,
}

-- Where a submission leads, from the page `p` and the state `v` of the server in which the handler runs:
-- an error is shown and nothing else is; or the second form is, and the session has a challenge for a user
-- whose password argon2 accepted and who has TOTP; or the page goes on to `/`, and the session holds such
-- a user, who has none.
pub data LoginEntry (env : Env) (v : World) (p : LoginPage) (r : LoginPage × World) : Type 0 where
  stays :
      (message : String)
      → r.0 ≡ record p { error = some message; login_busy = false }
      → LoginEntry env v p r
  asked :
      (user : UserRecord)
      → IsVerified env v p.username p.password user
      → user.totp_enabled ≡ 1
      → r.0 ≡ record p {
        login_hidden = true;
        twofa_hidden = false;
        error = none;
        code = "";
        login_busy = false;
      }
      → r.1.session ≡ (challenged user v).session
      → LoginEntry env v p r
  entered :
      (user : UserRecord)
      → IsVerified env v p.username p.password user
      → user.totp_enabled ≢ 1
      → r.0 ≡ record p { location = some "/"; error = none; login_busy = false }
      → r.1.session ≡ session_of user
      → LoginEntry env v p r

pub data CodeEntry (env : Env) (v : World) (code : String) (p : LoginPage) (r : LoginPage × World)
    : Type 0 where
  stays :
      (message : String)
      → r.0 ≡ record p { error = some message; twofa_busy = false }
      → CodeEntry env v code p r
  entered :
      (user : UserRecord)
      → IsAnswered env v code user
      → r.0 ≡ record p { location = some "/"; error = none; twofa_busy = false }
      → r.1.session ≡ session_of user
      → CodeEntry env v code p r

module _ (env : Env) (bytes : String → List ℕ) (no_answer : String) where
  pub submit_login_lem :
      (p : LoginPage) (w : World)
      → str_eq env.random_hex "" ≡ false
      → let m = login_handler env p.username p.password in
        submit_login (serve {B = LoginBody} env bytes m) token_in no_answer asks_code p w ≡ (
          login_answered asks_code
              (shown no_answer m (issuing env w))
              (record (clear_error p) { login_busy = true }),
          (m (issuing env w)).1,
        )
  unfolding submit_login async_handler
  submit_login_lem p w nonempty =
      let m = login_handler env p.username p.password in
      ap (λ r. (login_answered asks_code r.0 (record (clear_error p) { login_busy = true }), r.1))
        (post_json_lem env bytes m no_answer "/api/auth/login" (credentials p.username p.password) w
          nonempty)

  submit_code_lem :
      (code : String) (trim : String → String) (p : LoginPage) (w : World)
      → str_eq env.random_hex "" ≡ false
      → trim p.code ≡ code
      → let m = code_handler env code in
        submit_code (serve {B = LoginBody} env bytes m) token_in no_answer trim p w ≡ (
          code_answered
              (shown no_answer m (issuing env w))
              (record (clear_error p) { twofa_busy = true }),
          (m (issuing env w)).1,
        )
  unfolding submit_code async_handler
  submit_code_lem code trim p w nonempty e =
      let m = code_handler env code in
      ap (λ r. (code_answered r.0 (record (clear_error p) { twofa_busy = true }), r.1))
        (post_json_lem env bytes m no_answer "/api/auth/2fa" (code_token (trim p.code)) w nonempty)

module _ (env : Env) (bytes : String → List ℕ) (no_answer : String) (law : IsLawful env)
    (nonempty : str_eq env.random_hex "" ≡ false) where
  -- Wherever a code is submitted: an error is shown and nothing else, or the page goes on to `/`, and then
  -- otplib accepted the code for the user of the challenge, whom alone the session holds.
  pub submit_code_enters :
      (code : String) (trim : String → String) (p : LoginPage) (w : World)
      → trim p.code ≡ code
      → CodeEntry env (issuing env w) code p (
          submit_code
            (serve {B = LoginBody} env bytes (code_handler env code))
            token_in
            no_answer
            trim
            p
            w)
  unfolding send_success
  submit_code_enters code trim p w trimmed =
      subst (CodeEntry env (issuing env w) code p)
        (sym (submit_code_lem env bytes no_answer code trim p w nonempty trimmed))
        (entry (verify_two_factor_answer env (issuing env w) code law))
    where
      v : World
      v = issuing env w

      m : Exec World (Response (Body AuthData))
      m = code_handler env code

      q : LoginPage
      q = record (clear_error p) { twofa_busy = true }

      handled : m v ≡ (
        mapped (labelled of_user) (verify_two_factor env code v).0,
        (verify_two_factor env code v).1,
      )
      handled =
          labelling_lem (verify_two_factor env code v).0 (labelled of_user)
            (verify_two_factor env code v).1

      result :
          (r : Result (Response PublicUser))
          → (verify_two_factor env code v).0 ≡ r
          → (m v).0 ≡ mapped (labelled of_user) r
      result r h = ap (λ x. x.0) handled ∙ ap (mapped (labelled of_user)) h

      entry :
          TokenAnswer env v code (verify_two_factor env code v)
          → CodeEntry env v code p (code_answered (shown no_answer m v) q, (m v).1)
      entry (Answers.refused f h) =
          let (message, e) = shown-err no_answer m v f (result (err f) h) in
          stays message (ap (λ s. code_answered s q) e)
      entry (Answers.welcomes user verified h session) =
          entered user verified
            (ap (λ s. code_answered s q) (shown-ok no_answer m v _ (result _ h)))
            (ap (λ x. x.1.session) handled ∙ session)
