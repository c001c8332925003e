-- ===== src/Api/Errors.antt =====
-- core/errors.py and the exception handlers of main.py. The envelope's code is kept as data.
use review_signal.Base.{
  ℕ, ◌≡◌, ◌≢◌, ◌↔◌, inl, inr, Bool, true, false, not, Option, none, some, List, [], ◌++◌, map,
  arith, if◌then◌else◌, keep, ◌==◌, eq_cases, Text, codes, join, nat_eq, list_eq, option_eq,
}

-- `ErrorCode`
pub data ErrorCode : Type 0 where
  validation unauthorized not_found conflict google_not_connected google_api : ErrorCode
  job_not_retryable version_conflict model_unavailable internal : ErrorCode

-- `DomainError` and its subclasses; the base class stands for itself.
pub data DomainClass : Type 0 where
  domain_error validation_failed_error unauthorized_error resource_not_found_error : DomainClass
  conflict_error google_connection_error google_failure_error : DomainClass
  job_not_retryable_error version_conflict_error model_unavailable_error : DomainClass
  internal_error : DomainClass

-- `code`
unfoldable pub code_of : DomainClass → ErrorCode
code_of domain_error = internal
code_of validation_failed_error = validation
code_of unauthorized_error = unauthorized
code_of resource_not_found_error = not_found
code_of conflict_error = conflict
code_of google_connection_error = google_not_connected
code_of google_failure_error = google_api
code_of job_not_retryable_error = job_not_retryable
code_of version_conflict_error = version_conflict
code_of model_unavailable_error = model_unavailable
code_of internal_error = internal

-- `status_code`
unfoldable pub status_of : DomainClass → ℕ
status_of domain_error = 500
status_of validation_failed_error = 400
status_of unauthorized_error = 401
status_of resource_not_found_error = 404
status_of conflict_error = 409
status_of google_connection_error = 409
status_of google_failure_error = 502
status_of job_not_retryable_error = 409
status_of version_conflict_error = 409
status_of model_unavailable_error = 503
status_of internal_error = 500

-- One entry of `RequestValidationError.errors()`: its location, as text parts, and its message.
pub record FieldError : Type 0 where
  pub loc : List Text
  pub msg : Option Text

-- What a route may raise.
pub data Raised : Type 0 where
  domain : DomainClass → Text → Raised
  invalid_request : List FieldError → Raised
  unhandled : Text → Raised

-- A JSON error response.
pub record ErrorResponse : Type 0 where
  pub status_code : ℕ
  pub code : ErrorCode
  pub message : Text

abbrev pub msg_or : Option Text → Text → Text
msg_or none d = d
msg_or (some t) d = t

-- One part of `_summarize`.
unfoldable pub summary_part : FieldError → Text
unfolding join
summary_part e =
    let location = join (codes ".") (keep (λ p. not (p == codes "body")) e.loc) in
    if location == []
    then msg_or e.msg []
    else location ++ (codes ": " ++ msg_or e.msg (codes "invalid"))

-- `_summarize`
unfoldable pub summarize : List FieldError → Text
unfolding summary_part join
summarize errors =
    let t = join (codes "; ") (map summary_part errors) in
    if t == [] then codes "Request validation failed." else t

-- The handlers that `_register_error_handlers` installs.
unfoldable pub respond : Raised → ErrorResponse
unfolding code_of status_of summarize
respond (domain c message) = record {
  status_code = status_of c;
  code = code_of c;
  message = message;
}
respond (invalid_request errors) = record {
  status_code = 400;
  code = validation;
  message = summarize errors;
}
respond (unhandled cause) = record {
  status_code = 500;
  code = internal;
  message = codes "An internal error occurred.";
}

-- Which codes stand for a server's own fault.
abbrev pub is_internal : ErrorCode → Bool
is_internal internal = true
is_internal c = false

-- The status that HTTP knows for what a code says: a bad request, missing credentials, a missing
-- resource, a conflict with the state of one, a failing or an unavailable upstream, an own fault. It is
-- read off the code that a client sees, not off the exception's class.
abbrev pub http_status : ErrorCode → ℕ
http_status validation = 400
http_status unauthorized = 401
http_status not_found = 404
http_status conflict = 409
http_status google_not_connected = 409
http_status job_not_retryable = 409
http_status version_conflict = 409
http_status internal = 500
http_status google_api = 502
http_status model_unavailable = 503

-- What the mapping promises of a response.
abbrev pub Mapped : Raised → ErrorResponse → Type 0
Mapped (domain c message) r = r.message ≡ message
Mapped (invalid_request errors) r = (r.status_code ≡ 400) × (r.message ≢ [])
Mapped (unhandled cause) r =
    (r.status_code ≡ 500) × (r.message ≡ codes "An internal error occurred.")

or_default-nonempty : (t : Text) → (if t == [] then codes "Request validation failed." else t) ≢ []
or_default-nonempty t = elim (eq_cases t []) [
  | inl (h, same) ↦ rw h (λ e. cc e)
  | inr (h, ne) ↦ rw h ne
]

summarize-nonempty : (errors : List FieldError) → summarize errors ≢ []
unfolding summarize
summarize-nonempty errors = or_default-nonempty (join (codes "; ") (map summary_part errors))

-- Whatever a route raises, the response's status is the one that HTTP knows for its code, so that a
-- client can go by either; it is 500 exactly with the code INTERNAL_ERROR. A domain error's message
-- reaches the client, an invalid request gets 400 with a message that is not empty, and any other
-- exception only the fixed message.
pub respond-Mapped :
    (raised : Raised)
    → let r = respond raised in
      (r.status_code ≡ http_status r.code)
      × ((r.status_code ≡ 500) ↔ (is_internal r.code ≡ true))
      × Mapped raised r
unfolding respond status_of code_of
respond-Mapped (domain c message) = go c
  where
    go :
        (c : DomainClass)
        → (status_of c ≡ http_status (code_of c))
          × ((status_of c ≡ 500) ↔ (is_internal (code_of c) ≡ true))
          × (message ≡ message)
    go domain_error = ground arith
    go validation_failed_error = ground arith
    go unauthorized_error = ground arith
    go resource_not_found_error = ground arith
    go conflict_error = ground arith
    go google_connection_error = ground arith
    go google_failure_error = ground arith
    go job_not_retryable_error = ground arith
    go version_conflict_error = ground arith
    go model_unavailable_error = ground arith
    go internal_error = ground arith
respond-Mapped (invalid_request errors) = ground (arith, summarize-nonempty errors)
respond-Mapped (unhandled cause) = ground arith
