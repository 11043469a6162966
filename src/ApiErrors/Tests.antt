-- ===== src/ApiErrors/Tests.antt =====
-- The responses to concrete errors.
use Prim.Native.String.{String}
use clotho.Prelude.{◌≡◌, ◌≢◌, ◌≤◌}
use clotho.ApiErrors.{
  ApiError, upstream, idempotency_conflict, status, code, safe_message, retryable, retryable_status,
  code_for_status, safe_message_for_status,
}
use clotho.ApiErrors.Envelope.{tables_agree}

tables_agree_example :
    let e : ApiError = upstream "forgejo" in
    (retryable e ≡ retryable_status (status e))
    × (((m : String) → e ≢ idempotency_conflict m) → code e ≡ code_for_status (status e))
    × (500 ≤ status e → safe_message e ≡ safe_message_for_status (status e))
tables_agree_example = tables_agree (upstream "forgejo")
