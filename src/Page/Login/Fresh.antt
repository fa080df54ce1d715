-- ===== src/Page/Login/Fresh.antt =====
-- The login page and the guard against forged requests together: a token that was just fetched passes.
use pm2manager.Common.{ℕ, ◌≡◌, refl, String, false, List, str_eq}
use pm2manager.Exec.{Exec}
use pm2manager.Http.{Response, async_handler, send_success}
use pm2manager.World.{Env, World}
use pm2manager.Guards.{csrf_protection}
use pm2manager.Client.Recovery.{
  Body, token_in, reply_of, serve, issuing, get_csrf_token_issues, issued-matches,
}
use pm2manager.Page.Login.{LoginBody, data_answered, post_json}

module _ {A : Type 0} (env : Env) (bytes : String → List ℕ)
    (handler : Exec World (Response (Body A))) (no_answer : String) where
  -- Where the server makes a secret that is not empty, a POST of the login page always comes to what the
  -- handler answers, which runs where a secret is set.
  pub post_json_lem :
      (path : String) (body : LoginBody) (w : World)
      → str_eq env.random_hex "" ≡ false
      → post_json (serve {B = LoginBody} env bytes handler) token_in no_answer path body w ≡ (
        data_answered no_answer (reply_of (async_handler handler (issuing env w)).0),
        (async_handler handler (issuing env w)).1,
      )
  unfolding post_json serve csrf_protection send_success
  post_json_lem path body w nonempty =
      rw (get_csrf_token_issues env w, issued-matches env bytes w nonempty) refl
