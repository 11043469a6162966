-- ===== src/ApiErrors.antt =====
-- crates/clotho-api-gateway/src/error.rs: the errors of the REST edge and what a client sees of
-- them; and the status tables of request_context.rs. A message that the code formats is here the
-- constant part of its text.
pub mod Envelope
mod Tests
use Prim.Native.String
use Prim.Native.String.{String}
use clotho.Prelude.{ℕ, Bool, true, false, ◌||◌, Option, none, some, ◌==◌, leb, if◌then◌else◌}

pub data ApiError : Type 0 where
  invalid_request not_found conflict idempotency_conflict upstream internal unauthorized forbidden :
      String → ApiError
  range_not_satisfiable : (message : String) (size : ℕ) → ApiError

unfoldable pub status : ApiError → ℕ
status (invalid_request m) = 400
status (not_found m) = 404
status (conflict m) = 409
status (idempotency_conflict m) = 409
status (range_not_satisfiable m size) = 416
status (upstream m) = 502
status (internal m) = 500
status (unauthorized m) = 401
status (forbidden m) = 403

unfoldable pub code : ApiError → String
code (invalid_request m) = "invalid_request"
code (not_found m) = "not_found"
code (conflict m) = "conflict"
code (idempotency_conflict m) = "idempotency_conflict"
code (range_not_satisfiable m size) = "range_not_satisfiable"
code (upstream m) = "upstream_unavailable"
code (internal m) = "internal_error"
code (unauthorized m) = "unauthenticated"
code (forbidden m) = "permission_denied"

-- The text of the error itself.
unfoldable pub to_string : ApiError → String
to_string (invalid_request m) = m
to_string (not_found m) = m
to_string (conflict m) = m
to_string (idempotency_conflict m) = m
to_string (range_not_satisfiable m size) = m
to_string (upstream m) = m
to_string (internal m) = m
to_string (unauthorized m) = m
to_string (forbidden m) = m

unfoldable pub safe_message : ApiError → String
unfolding to_string
safe_message (upstream m) = "a required Clotho service is unavailable"
safe_message (internal m) = "internal server error"
safe_message e = to_string e

unfoldable pub retryable : ApiError → Bool
retryable (upstream m) = true
retryable e = false

pub record ErrorEnvelope : Type 0 where
  pub version : String
  pub code : String
  pub message : String
  pub request_id : String
  pub retryable : Bool

unfoldable pub new_envelope : String → String → Bool → ErrorEnvelope
new_envelope code_ message again = record {
  version = "1";
  code = code_;
  message = message;
  request_id = "";
  retryable = again;
}

-- What the client receives: the status, the body and the size in a `Content-Range` header.
pub record Response : Type 0 where
  pub status : ℕ
  pub body : ErrorEnvelope
  pub content_range : Option ℕ

abbrev unsatisfied_size : ApiError → Option ℕ
unsatisfied_size (range_not_satisfiable m size) = some size
unsatisfied_size e = none

unfoldable pub into_response : ApiError → Response
unfolding status code safe_message retryable new_envelope
into_response e = record {
  status = status e;
  body = new_envelope (code e) (safe_message e) (retryable e);
  content_range = unsatisfied_size e;
}

-- The gRPC codes that the edge tells apart.
pub data GrpcCode : Type 0 where
  invalid_argument already_exists not_found_code other_code : GrpcCode

-- `impl From<tonic::Status> for ApiError`
unfoldable pub from_status : GrpcCode → String → ApiError
from_status invalid_argument message = invalid_request message
from_status not_found_code message = not_found "resource not found"
from_status already_exists message = conflict message
from_status other_code message = upstream (String.◌++◌ "Clotho internal service: " message)

-- request_context.rs: the class of a response that carries no typed error.
unfoldable pub code_for_status : ℕ → String
code_for_status n =
    if n == 400 || n == 422
    then "invalid_request"
    else if n == 401
    then "unauthenticated"
    else if n == 403
    then "permission_denied"
    else if n == 404
    then "not_found"
    else if n == 405
    then "method_not_allowed"
    else if n == 409
    then "conflict"
    else if n == 413
    then "payload_too_large"
    else if n == 416
    then "range_not_satisfiable"
    else if n == 429
    then "rate_limited"
    else if n == 502
    then "upstream_unavailable"
    else if n == 503
    then "service_unavailable"
    else if n == 504
    then "upstream_timeout"
    else "internal_error"

unfoldable pub safe_message_for_status : ℕ → String
safe_message_for_status n =
    if n == 400 || n == 422
    then "invalid request"
    else if n == 401
    then "authentication required"
    else if n == 403
    then "permission denied"
    else if n == 404
    then "resource not found"
    else if n == 405
    then "method not allowed"
    else if n == 409
    then "request conflicts with current state or policy"
    else if n == 413
    then "request payload is too large"
    else if n == 416
    then "requested range is not satisfiable"
    else if n == 429
    then "request rate limit exceeded"
    else if n == 502 || n == 503 || n == 504
    then "a required Clotho service is unavailable"
    else "internal server error"

unfoldable pub retryable_status : ℕ → Bool
retryable_status n = n == 429 || n == 502 || n == 503 || n == 504
