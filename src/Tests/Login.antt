-- ===== src/Tests/Login.antt =====
-- The login page.
use pm2manager.Common.{refl, true, false, none, some, codes}
use pm2manager.World.{World, set_session}
use pm2manager.Sessions.{empty_session}
use pm2manager.Client.Recovery.{token_in, serve, issuing}
use pm2manager.Page.Login.{LoginPage, LoginBody, submit_code}
use pm2manager.Page.Login.Answered.{code_handler}
use pm2manager.Page.Login.Entry.{CodeEntry, submit_code_enters}
use pm2manager.Tests.Data.{env, env-IsLawful, visitor}

abbrev page : LoginPage
page = record {
  username = "Ann";
  password = "tiger";
  code = "123456";
  login_hidden = false;
  twofa_hidden = true;
  error = none;
  login_busy = false;
  twofa_busy = false;
  location = none;
}

abbrev asked : World
asked =
    set_session
      (record empty_session { pending2fa = some (record { user_id = 2; username = "Ann" }) })
      visitor

submit_code_enters_example : CodeEntry env (issuing env asked) "123456" page (
    submit_code
      (serve {B = LoginBody} env codes (code_handler env "123456"))
      token_in
      "error"
      (λ s. s)
      page
      asked)
submit_code_enters_example =
    submit_code_enters env codes "error" env-IsLawful refl "123456" (λ s. s) page asked refl
