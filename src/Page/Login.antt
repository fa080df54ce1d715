-- ===== src/Page/Login.antt =====
-- The login page (public/static/js/login.js): its two forms, and the requests that they make. What
-- `fetch` does is a parameter, a function of the state of everything outside the page, and so are the
-- message of an error of the browser's own and how a text is trimmed. A body that is JSON
-- is an envelope. A form that is busy is not submitted.
pub mod Fresh
pub mod Answered
pub mod Entry
pub mod Progress
use pm2manager.Common.{ℕ, String, Bool, true, false, Option, none, some, if◌then◌else◌}
use pm2manager.Http.{Envelope, success, failure}
use pm2manager.Client.{Call, Reply}

-- What a request comes to: its data, or the message of the error thrown.
pub data Posted {ℓ} (D : Type ℓ) : Type ℓ where
  posted : D → Posted D
  refused : String → Posted D

-- The inputs, which forms are hidden, the message of the error box where it is shown, whether the buttons
-- are busy, and `window.location`.
pub record LoginPage : Type 0 where
  pub username : String
  pub password : String
  pub code : String
  pub login_hidden : Bool
  pub twofa_hidden : Bool
  pub error : Option String
  pub login_busy : Bool
  pub twofa_busy : Bool
  pub location : Option String

-- The bodies that are sent.
pub data LoginBody : Type 0 where
  credentials : (username password : String) → LoginBody
  code_token : String → LoginBody

abbrev pub data_in {ℓ} : {D : Type ℓ} → Option (Envelope D) → Posted D
data_in none = refused "Request failed"
data_in (some (failure e)) = refused e.message
data_in (some (success d)) = posted d

abbrev pub data_answered : {D : Type 0} → String → Option (Reply D) → Posted D
data_answered no_answer none = refused no_answer
data_answered no_answer (some r) = data_in r.payload

module _ {S B D : Type 0} (fetch : Call B → S → Option (Reply D) × S) (token_in : D → Option String)
    (no_answer : String) where
  abbrev pub token_of : Option (Envelope D) → Posted (Option String)
  token_of none = refused no_answer
  token_of (some (failure e)) = refused "Could not initialise session."
  token_of (some (success d)) = posted (token_in d)

  abbrev pub token_answered : Option (Reply D) × S → Posted (Option String) × S
  token_answered (none, s) = (refused no_answer, s)
  token_answered (some r, s) = (token_of r.payload, s)

  unfoldable pub fetch_csrf_token : S → Posted (Option String) × S
  fetch_csrf_token s = token_answered (
      fetch
        (record { method = "GET"; path = "/api/auth/csrf-token"; csrf_header = none; body = none })
        s)

  abbrev pub sent_with : String → B → Posted (Option String) × S → Posted D × S
  sent_with path body (refused message, s) = (refused message, s)
  sent_with path body (posted token, s) =
      let r =
        fetch (record { method = "POST"; path = path; csrf_header = some token; body = some body })
          s in
      (data_answered no_answer r.0, r.1)

  unfoldable pub post_json : String → B → S → Posted D × S
  unfolding fetch_csrf_token
  post_json path body s = sent_with path body (fetch_csrf_token s)

abbrev pub clear_error : LoginPage → LoginPage
clear_error p = record p { error = none }

abbrev pub reveal_two_factor : LoginPage → LoginPage
reveal_two_factor p = record p {
  login_hidden = true;
  twofa_hidden = false;
  error = none;
  code = "";
}

module _ {D : Type 0} (two_factor_required : D → Bool) where
  -- The rest of the submission of the first form; the button is busy until its end.
  abbrev pub login_answered : Posted D → LoginPage → LoginPage
  login_answered (posted d) p =
      if two_factor_required d
      then record (reveal_two_factor p) { login_busy = false }
      else record p { location = some "/"; login_busy = false }
  login_answered (refused message) p = record p { error = some message; login_busy = false }

abbrev pub code_answered {ℓ} : {D : Type ℓ} → Posted D → LoginPage → LoginPage
code_answered (posted d) p = record p { location = some "/"; twofa_busy = false }
code_answered (refused message) p = record p { error = some message; twofa_busy = false }

module _ {S D : Type 0} (fetch : Call LoginBody → S → Option (Reply D) × S)
    (token_in : D → Option String) (no_answer : String) where
  unfoldable pub submit_login : (D → Bool) → LoginPage → S → LoginPage × S
  unfolding post_json
  submit_login two_factor_required p s =
      let r =
        post_json fetch token_in no_answer "/api/auth/login" (credentials p.username p.password)
          s in
      (login_answered two_factor_required r.0 (record (clear_error p) { login_busy = true }), r.1)

  unfoldable pub submit_code : (String → String) → LoginPage → S → LoginPage × S
  unfolding post_json
  submit_code trim p s =
      let r = post_json fetch token_in no_answer "/api/auth/2fa" (code_token (trim p.code)) s in
      (code_answered r.0 (record (clear_error p) { twofa_busy = true }), r.1)

-- A click on `twofa-back`.
abbrev pub back : LoginPage → LoginPage
back p = record p { twofa_hidden = true; login_hidden = false; error = none; password = "" }
