-- ===== src/Client.antt =====
-- The requests of the browser client (public/static/js/api.js). What `fetch` does is a parameter,
-- a function of the state of everything outside the page; the log stream is left out.
pub mod Bounded
pub mod Recovery
use pm2manager.Common.{
  ℕ, zero, suc, String, Bool, true, false, not, ◌&&◌, Option, none, some, List, [], ◌∷◌, ◌==◌,
  str_eq, is_blank, or_else, if◌then◌else◌,
}
use pm2manager.Http.{ApiError, Envelope, success, failure}

-- An `Error` with `code` and `details`.
pub record ClientError : Type 0 where
  pub message : String
  pub code : String
  pub details : Option String

-- What is handed to `fetch`. A request that mutates has the header, also where there is no token.
pub record Call (B : Type 0) : Type 0 where
  pub method : String
  pub path : String
  pub csrf_header : Option (Option String)
  pub body : Option B

-- A response; the payload is `none` where the body is not JSON, or not an envelope.
pub record Reply (D : Type 0) : Type 0 where
  pub status : ℕ
  pub status_text : String
  pub payload : Option (Envelope D)

-- How a request ends: out of fuel, with an error thrown, or with a value.
pub data Ended (D : Type 0) : Type 0 where
  unfinished : Ended D
  thrown : ClientError → Ended D
  returned : D → Ended D

-- The page: what is outside of it, the cached token, where it was sent, and the calls of `fetch`, the
-- latest first.
pub record Page (S B : Type 0) : Type 0 where
  pub server : S
  pub csrf_token : Option String
  pub location : Option String
  pub sent : List (Call B)

-- `a || b`
abbrev pub or_text : String → String → String
or_text a b = if str_eq a "" then b else a

unfoldable pub make_error : {D : Type 0} → Option (Envelope D) → String → ClientError
make_error (some (failure e)) fallback = record {
  message = or_text e.message (or_text fallback "Request failed");
  code = or_text e.code "ERROR";
  details = e.details;
}
make_error _ fallback = record {
  message = or_text fallback "Request failed";
  code = "ERROR";
  details = none;
}

abbrev pub is_mutation : String → Bool
is_mutation method = not (str_eq method "GET") && not (str_eq method "HEAD")

abbrev pub network_error : ClientError
network_error = record {
  message = "Network error — could not reach the server.";
  code = "NETWORK_ERROR";
  details = none;
}

module _ {S B D : Type 0} where
  -- `opts`, and the call of `fetch`.
  abbrev pub send :
      (Call B → S → Option (Reply D) × S) → Call B → Page S B → Option (Reply D) × Page S B
  send fetch call w =
      ((fetch call w.server).0, record w { server = (fetch call w.server).1; sent = call ∷ w.sent })

  -- What a payload that is not `ok` comes to: once, where a mutation was forbidden, the request again
  -- without the cached token.
  abbrev pub refused :
      (again : Page S B → Ended D × Page S B)
      → (method : String) (retried : Bool) → Reply D
      → Page S B
      → Ended D × Page S B
  refused again method retried r w =
      if r.status == 403 && is_mutation method && not retried
      then again (record w { csrf_token = none })
      else (thrown (make_error r.payload (or_text r.status_text "Request failed")), w)

  abbrev pub unwrapped :
      (again : Page S B → Ended D × Page S B)
      → (method : String) (retried : Bool) → Option (Envelope D)
      → Reply D
      → Page S B
      → Ended D × Page S B
  unwrapped again method retried (some (success d)) r w = (returned d, w)
  unwrapped again method retried _ r w = refused again method retried r w

  abbrev pub answered :
      (again : Page S B → Ended D × Page S B)
      → (method : String) (retried : Bool) → Option (Reply D) × Page S B
      → Ended D × Page S B
  answered again method retried (none, w) = (thrown network_error, w)
  answered again method retried (some r, w) =
      if r.status == 401
      then (
        thrown (make_error {D = D} none "Session expired — please sign in again."),
        record w { location = some "/login" },
      )
      else unwrapped again method retried r.payload r w

  -- The token that a GET for it came to is cached.
  abbrev pub cached : (D → Option String) → Ended D × Page S B → Ended (Option String) × Page S B
  cached token_in (unfinished, w) = (unfinished, w)
  cached token_in (thrown e, w) = (thrown e, w)
  cached token_in (returned d, w) = (returned (token_in d), record w { csrf_token = token_in d })

  abbrev pub get_csrf_token :
      (D → Option String)
      → (Page S B → Ended D × Page S B)
      → Page S B
      → Ended (Option String) × Page S B
  get_csrf_token token_in request_token w =
      if is_blank w.csrf_token
      then cached token_in (request_token w)
      else (returned w.csrf_token, w)

  -- The header of a request, before it is sent.
  abbrev pub with_header :
      Ended (Option String) × Page S B
      → (Option String → Page S B → Ended D × Page S B)
      → Ended D × Page S B
  with_header (unfinished, w) rest = (unfinished, w)
  with_header (thrown e, w) rest = (thrown e, w)
  with_header (returned token, w) rest = rest token w

  -- `request`, on fuel: it calls itself for the token, and once more.
  unfoldable pub request :
      (Call B → S → Option (Reply D) × S)
      → (token_in : D → Option String) → ℕ
      → (method path : String) (body : Option B) (retried : Bool) → Page S B
      → Ended D × Page S B
  request fetch token_in zero method path body retried w = (unfinished, w)
  request fetch token_in (suc n) method path body retried w =
      let again = request fetch token_in n in
      let sent_with : Option (Option String) → Page S B → Ended D × Page S B = λ header w.
        answered (again method path body true) method retried (
          send fetch (record { method = method; path = path; csrf_header = header; body = body })
            w) in
      if is_mutation method
      then with_header (get_csrf_token token_in (again "GET" "/api/auth/csrf-token" none false) w)
          (λ token w. sent_with (some token) w)
      else sent_with none w

  module _ (fetch : Call B → S → Option (Reply D) × S) (token_in : D → Option String) (fuel : ℕ)
      (no_body : B) where
    abbrev get : String → Page S B → Ended D × Page S B
    get path w = request fetch token_in fuel "GET" path none false w

    -- `{}` is sent where no body is given.
    abbrev post : String → Option B → Page S B → Ended D × Page S B
    post path body w = request fetch token_in fuel "POST" path (some (or_else body no_body)) false w

    abbrev put : String → Option B → Page S B → Ended D × Page S B
    put path body w = request fetch token_in fuel "PUT" path (some (or_else body no_body)) false w

    abbrev del : String → Page S B → Ended D × Page S B
    del path w = request fetch token_in fuel "DELETE" path none false w

    -- `logout`: it never throws.
    unfoldable pub logout : Page S B → Page S B
    logout w = record (post "/api/auth/logout" (some no_body) w).1 {
      csrf_token = none;
      location = some "/login";
    }
