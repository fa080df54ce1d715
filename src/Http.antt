-- ===== src/Http.antt =====
-- Responses (src/utils/response.ts, src/types/index.ts), the central error handler
-- (src/middleware/error.middleware.ts) and the wrapper of async handlers (src/utils/asyncHandler.ts).
pub mod Failures
use pm2manager.Common.{
  ℕ, String, Bool, true, false, ◌&&◌, Option, none, some, leb, ltb, str_eq, if◌then◌else◌,
}
use pm2manager.Common.{or_else}
use pm2manager.Errors.{AppError, HttpError, Failure, app, zod, other}
use pm2manager.Exec.{Exec, Result, ok, err}

pub record ApiError : Type 0 where
  pub message : String
  pub code : String
  pub details : Option String

-- `ApiResponse`: `ok: true` with data, or `ok: false` with an error.
pub data Envelope {ℓ} (A : Type ℓ) : Type ℓ where
  success : A → Envelope A
  failure : ApiError → Envelope A

pub record Response {ℓ} (A : Type ℓ) : Type ℓ where
  pub status : ℕ
  pub body : Envelope A

unfoldable pub send_success {ℓ} : {A : Type ℓ} → A → ℕ → Response A
send_success value status_code = record { status = status_code; body = success value }

unfoldable pub send_error {ℓ} : {A : Type ℓ} → String → String → ℕ → Option String → Response A
send_error message code status_code details = record {
  status = status_code;
  body = failure (record { message = message; code = code; details = details });
}

-- `a ?? b` on two fields that may be missing.
abbrev pub first_of {ℓ} : {A : Type ℓ} → Option A → Option A → Option A
first_of none o = o
first_of (some a) o = some a

-- `httpErr.expose && httpErr.message ? httpErr.message : 'Bad request'`
abbrev exposed_message : HttpError → String
exposed_message e = elim e.message [
  | none ↦ "Bad request"
  | some message ↦
      if e.expose then (if str_eq message "" then "Bad request" else message) else "Bad request"
]

abbrev internal_error {ℓ} : {A : Type ℓ} → Response A
internal_error {A} = record {
  status = 500;
  body = failure (record {
    message = "An unexpected error occurred";
    code = "INTERNAL_ERROR";
    details = none;
  });
}

unfoldable pub http_failure {ℓ} : {A : Type ℓ} → HttpError → Response A
unfolding send_error
http_failure e = elim (first_of e.status e.status_code) [
  | none ↦ send_error "An unexpected error occurred" "INTERNAL_ERROR" 500 none
  | some status ↦
      if leb 400 status && ltb status 500
      then send_error (exposed_message e) "BAD_REQUEST" status none
      else send_error "An unexpected error occurred" "INTERNAL_ERROR" 500 none
]

-- Nothing is sent once the headers are out. What is logged is left out.
unfoldable pub error_handler {ℓ} : {A : Type ℓ} → Bool → Failure → Option (Response A)
unfolding send_error http_failure
error_handler true e = none
error_handler false (app e) = some (send_error e.message e.code e.status_code e.details)
error_handler false (zod flattened) =
    some (send_error "Validation failed" "VALIDATION_ERROR" 422 (some flattened))
error_handler false (other e) = some (http_failure e)

abbrev pub settled {ℓ} : {A : Type ℓ} → Result (Response A) → Option (Response A)
settled (ok r) = some r
settled (err e) = error_handler false e

-- A handler behind `asyncHandler`: a rejection goes to the error handler. The handlers send their
-- response last, so no headers are out when they throw.
unfoldable pub async_handler {ℓ} :
    {S A : Type ℓ} → Exec S (Response A) → S → Option (Response A) × S
unfolding error_handler
async_handler fn s = (settled (fn s).0, (fn s).1)
