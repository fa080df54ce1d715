-- ===== src/Page/Login/Answered.antt =====
-- What the login page shows of an answer of the server's login (public/static/js/login.js,
-- src/controllers/auth.controller.ts).
use pm2manager.Common.{arith, ◌≡◌, refl, ap, ◌∙◌, String, Bool, false, some}
use pm2manager.Errors.{Failure, app, zod, other}
use pm2manager.Exec.{Exec, Result, ok, err, pure, continue, ◌>>=◌}
use pm2manager.Http.{
  error_handler, http_failure, settled, send_error, Envelope, success, failure, Response,
  async_handler,
}
use pm2manager.World.{Env, World}
use pm2manager.Auth.Service.{PublicUser}
use pm2manager.Auth.Controller.{LoginData, login, verify_two_factor}
use pm2manager.Client.Recovery.{Body, handler_data, reply_of, issuing}
use pm2manager.Page.Login.{Posted, posted, refused, data_answered}

-- The data of the two handlers.
pub data AuthData : Type 0 where
  of_login : LoginData → AuthData
  of_user : PublicUser → AuthData

abbrev pub asks_code : Body AuthData → Bool
asks_code (handler_data (of_login d)) = d.two_factor_required
asks_code _ = false

abbrev pub relabelled : {A B : Type 0} → (A → B) → Envelope A → Envelope B
relabelled f (success a) = success (f a)
relabelled f (failure e) = failure e

abbrev pub labelled : {A : Type 0} → (A → AuthData) → Response A → Response (Body AuthData)
labelled f r = record { status = r.status; body = relabelled (λ a. handler_data (f a)) r.body }

abbrev pub login_handler : Env → String → String → Exec World (Response (Body AuthData))
login_handler env username password =
    login env username password >>= λ r. pure (labelled of_login r)

abbrev pub code_handler : Env → String → Exec World (Response (Body AuthData))
code_handler env token = verify_two_factor env token >>= λ r. pure (labelled of_user r)

abbrev text_of : {D : Type 0} → Posted D → String
text_of (posted d) = ""
text_of (refused message) = message

-- An error of the server is shown by its message.
error_shown :
    {A : Type 0} (no_answer : String) (f : Failure)
    → (message : String) × (data_answered {D = Body A} no_answer (reply_of (error_handler false f))
        ≡ refused message)
unfolding error_handler http_failure send_error
error_shown no_answer (app e) = (e.message, refl)
error_shown no_answer (zod flattened) = ("Validation failed", refl)
error_shown {A} no_answer (other e) = (
  text_of (data_answered {D = Body A} no_answer (reply_of (some (http_failure e)))),
  ground arith,
)

module _ {A : Type 0} (no_answer : String) (m : Exec World (Response (Body A))) (w : World) where
  abbrev pub shown : Posted (Body A)
  shown = data_answered no_answer (reply_of (async_handler m w).0)

  pub shown-err : (f : Failure) → (m w).0 ≡ err f → (message : String) × (shown ≡ refused message)
  unfolding async_handler
  shown-err f h =
      let (message, q) = error_shown no_answer f in
      (message, ap (λ r. data_answered no_answer (reply_of (settled r))) h ∙ q)

  pub shown-ok :
      (r : Response (Body A)) → (m w).0 ≡ ok r → shown ≡ data_answered no_answer (reply_of (some r))
  unfolding async_handler
  shown-ok r h = ap (λ q. data_answered no_answer (reply_of (settled q))) h

pub issuing_users : (env : Env) (w : World) → (issuing env w).users ≡ w.users
issuing_users env w = ground arith

abbrev pub mapped : {A B : Type 0} → (A → B) → Result A → Result B
mapped f (ok a) = ok (f a)
mapped f (err e) = err e

-- Labelling an answer leaves the state alone.
pub labelling_lem :
    {A B : Type 0} (r : Result A) (f : A → B) (w : World)
    → continue r (λ a. pure (f a)) w ≡ (mapped f r, w)
labelling_lem (ok a) f w = refl
labelling_lem (err e) f w = refl
