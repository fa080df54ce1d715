-- ===== src/Errors.antt =====
-- The typed errors of src/utils/errors.ts, and what may be thrown beside them.
use pm2manager.Common.{ℕ, String, Bool, true, Option, none, some}

-- The class whose constructor made the error (`new.target.name`).
pub data ErrorName : Type 0 where
  bad_request validation unauthorized forbidden not_found conflict too_many_requests pm2 : ErrorName

-- Details are JSON texts.
pub record AppError : Type 0 where
  pub name : ErrorName
  pub message : String
  pub status_code : ℕ
  pub code : String
  pub is_operational : Bool
  pub details : Option String

-- What every subclass passes to the constructor of `AppError`.
abbrev pub app_error : ErrorName → String → ℕ → String → Option String → AppError
app_error name message status_code code details = record {
  name = name;
  message = message;
  status_code = status_code;
  code = code;
  is_operational = true;
  details = details;
}

abbrev pub bad_request_error : String → Option String → AppError
bad_request_error message details = app_error bad_request message 400 "BAD_REQUEST" details

abbrev pub validation_error : String → Option String → AppError
validation_error message details = app_error validation message 422 "VALIDATION_ERROR" details

abbrev pub unauthorized_error : String → AppError
unauthorized_error message = app_error unauthorized message 401 "UNAUTHORIZED" none

abbrev pub forbidden_error : String → AppError
forbidden_error message = app_error forbidden message 403 "FORBIDDEN" none

abbrev pub not_found_error : String → AppError
not_found_error message = app_error not_found message 404 "NOT_FOUND" none

abbrev pub conflict_error : String → Option String → AppError
conflict_error message details = app_error conflict message 409 "CONFLICT" details

abbrev pub too_many_requests_error : String → AppError
too_many_requests_error message = app_error too_many_requests message 429 "TOO_MANY_REQUESTS" none

abbrev pub pm2_error : String → Option String → AppError
pm2_error message details = app_error pm2 message 502 "PM2_ERROR" details

-- The default message of `UnauthorizedError`.
abbrev pub authentication_required : AppError
authentication_required = unauthorized_error "Authentication required"

-- An error of body-parser or http-errors: any field may be missing.
pub record HttpError : Type 0 where
  pub status : Option ℕ
  pub status_code : Option ℕ
  pub expose : Bool
  pub message : Option String

-- A thrown value, by the tests that the error handler makes: `instanceof AppError`, `instanceof
-- ZodError` (with its flattened issues), and any other object, whose fields are read as those of an
-- HTTP error.
pub data Failure : Type 0 where
  app : AppError → Failure
  zod : String → Failure
  other : HttpError → Failure

-- A thrown value with no status: a TypeError, an error of SQLite or of another library.
abbrev pub unexpected : String → Failure
unexpected message =
    other
      (record { status = none; status_code = none; expose = Bool.false; message = some message })
