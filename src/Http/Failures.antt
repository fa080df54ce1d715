-- ===== src/Http/Failures.antt =====
-- What a client sees of a failure (src/middleware/error.middleware.ts).
use pm2manager.Common.{
  ℕ, ◌≤◌, ◌<◌, ◌≡◌, refl, String, false, Option, none, some, arith, ◌⊎◌, inl, inr, Option-cases, ap,
  sym, ◌∙◌,
}
use pm2manager.Errors.{AppError, HttpError, ErrorName, Failure, app, zod, other}
use pm2manager.Errors
use pm2manager.Http.{
  Response, ApiError, Envelope, success, failure, error_handler, http_failure, first_of, send_error,
}

-- An error that one of the classes of utils/errors.ts has made.
pub data IsTyped : AppError → Type 0 where
  bad_request : (m : String) (d : Option String) → IsTyped (Errors.bad_request_error m d)
  validation : (m : String) (d : Option String) → IsTyped (Errors.validation_error m d)
  unauthorized : (m : String) → IsTyped (Errors.unauthorized_error m)
  forbidden : (m : String) → IsTyped (Errors.forbidden_error m)
  not_found : (m : String) → IsTyped (Errors.not_found_error m)
  conflict : (m : String) (d : Option String) → IsTyped (Errors.conflict_error m d)
  too_many : (m : String) → IsTyped (Errors.too_many_requests_error m)
  pm2 : (m : String) (d : Option String) → IsTyped (Errors.pm2_error m d)

abbrev pub IsThrown : Failure → Type 0
IsThrown (app e) = IsTyped e
IsThrown _ = Unit

-- An error response: a 4xx or 5xx status and an error envelope.
pub record IsErrorResponse (r : Response String) : Type 0 where
  pub at_least : 400 ≤ r.status
  pub at_most : r.status < 600
  pub error : ApiError
  pub enveloped : r.body ≡ failure error

typed_status : (e : AppError) → IsTyped e → (400 ≤ e.status_code) × (e.status_code < 600)
typed_status _ (bad_request m d) = omega arith
typed_status _ (validation m d) = omega arith
typed_status _ (unauthorized m) = omega arith
typed_status _ (forbidden m) = omega arith
typed_status _ (not_found m) = omega arith
typed_status _ (conflict m d) = omega arith
typed_status _ (too_many m) = omega arith
typed_status _ (pm2 m d) = omega arith

-- The error of an error envelope.
abbrev error_of : Envelope String → ApiError
error_of (success a) = record { message = ""; code = ""; details = none }
error_of (failure e) = e

http_failure-IsErrorResponse : (e : HttpError) → IsErrorResponse (http_failure e)
unfolding http_failure
http_failure-IsErrorResponse e = record {
  at_least = ground arith;
  at_most = ground arith;
  error = error_of (http_failure e).body;
  enveloped = ground arith;
}

-- Every failure that reaches the handler before the headers are sent is answered, by an error
-- envelope under a 4xx or 5xx status. The application's own errors are those that the classes make.
pub error_handler-IsErrorResponse :
    (e : Failure)
    → IsThrown e
    → (r : Response String) × (error_handler false e ≡ some r) × IsErrorResponse r
unfolding error_handler
error_handler-IsErrorResponse (app e) t = (
  _,
  refl,
  record {
    at_least = (typed_status e t).0;
    at_most = (typed_status e t).1;
    error = _;
    enveloped = refl;
  },
)
error_handler-IsErrorResponse (zod flattened) t =
    (_, refl, record { at_least = omega arith; at_most = omega arith; error = _; enveloped = refl })
error_handler-IsErrorResponse (other e) t = (_, refl, http_failure-IsErrorResponse e)

-- An error that carries no 4xx status: a programmer error, or one of a library.
abbrev pub IsInternal : HttpError → Type 0
IsInternal e =
    (status : ℕ) → first_of e.status e.status_code ≡ some status → (status < 400) ⊎ (500 ≤ status)

http_failure_internal :
    (e : HttpError)
    → IsInternal e
    → http_failure {A = String} e
      ≡ send_error "An unexpected error occurred" "INTERNAL_ERROR" 500 none
unfolding http_failure
http_failure_internal e h = elim (Option-cases (first_of e.status e.status_code)) [
  | inl missing ↦ rw (missing, http_failure)
  | inr (status, given) ↦ let wide = h status given in rw (given, http_failure) (ground arith)
]

-- Two errors without a 4xx status are answered alike, by status 500: nothing of them reaches the
-- client.
pub error_handler_leaks_nothing :
    (e f : HttpError)
    → IsInternal e
    → IsInternal f
    → (error_handler {A = String} false (other e) ≡ error_handler false (other f))
      × (r : Response String) × (error_handler false (other e) ≡ some r)
      × (r.status ≡ 500)
unfolding error_handler send_error
error_handler_leaks_nothing e f he hf = (
  ap some (http_failure_internal e he ∙ sym (http_failure_internal f hf)),
  _,
  ap some (http_failure_internal e he),
  refl,
)
