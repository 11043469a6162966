-- ===== src/ApiErrors/Envelope.antt =====
-- What the typed errors and the status tables have in common, and what a client cannot learn.
use Prim.Native.String.{String}
use clotho.Prelude.{◌≤◌, ◌≡◌, ◌≢◌, refl, arith}
use clotho.ApiErrors.{
  ApiError, invalid_request, not_found, conflict, idempotency_conflict, upstream, internal,
  unauthorized, forbidden, range_not_satisfiable, status, code, safe_message, retryable,
  into_response, code_for_status, safe_message_for_status, retryable_status,
}

-- A typed error and the tables by status agree: on whether to retry, on the code unless it is the
-- narrower `idempotency_conflict`, and, for server errors, on the message.
pub tables_agree :
    (e : ApiError)
    → (retryable e ≡ retryable_status (status e))
      × (((m : String) → e ≢ idempotency_conflict m) → code e ≡ code_for_status (status e))
      × (500 ≤ status e → safe_message e ≡ safe_message_for_status (status e))
unfolding retryable retryable_status status code code_for_status safe_message
    safe_message_for_status
tables_agree (invalid_request m) = (refl, λ _. refl, λ h. absurd (omega arith))
tables_agree (not_found m) = (refl, λ _. refl, λ h. absurd (omega arith))
tables_agree (conflict m) = (refl, λ _. refl, λ h. absurd (omega arith))
tables_agree (idempotency_conflict m) = (refl, λ h. absurd (h m refl), λ h. absurd (omega arith))
tables_agree (upstream m) = (refl, λ _. refl, λ _. refl)
tables_agree (internal m) = (refl, λ _. refl, λ _. refl)
tables_agree (unauthorized m) = (refl, λ _. refl, λ h. absurd (omega arith))
tables_agree (forbidden m) = (refl, λ _. refl, λ h. absurd (omega arith))
tables_agree (range_not_satisfiable m size) = (refl, λ _. refl, λ h. absurd (omega arith))

-- Two server errors with one status get the same response, whatever their messages say.
server_errors_conceal :
    (e f : ApiError) → 500 ≤ status e → status e ≡ status f → into_response e ≡ into_response f
unfolding into_response
server_errors_conceal (upstream m) (upstream n) h k = refl
server_errors_conceal (internal m) (internal n) h k = refl
server_errors_conceal e f h k = absurd (omega arith)
