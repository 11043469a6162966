-- ===== src/Idempotency.antt =====
-- crates/clotho-api-gateway/src/idempotency.rs and the idempotent creation of a run in actions.rs:
-- the first request of a key creates a run and stores its response, and a later one gets that response
-- back. A creation is one transaction: a refusal rolls it back. The database answers.
pub mod Replays
mod Tests
use clotho.Prelude.{
  ℕ, ◌+◌, ◌*◌, ◌≤◌, ◌≡◌, Bool, true, false, not, ◌&&◌, ◌||◌, Option, none, some, List, [], ◌∷◌,
  ◌++◌, all, length, leb, ltb, ◌==◌, if◌then◌else◌,
}
use clotho.Prelude.Bytes.{Bytes, beq, is_empty, is_alphanumeric}
use clotho.Prelude.Results.{Result, ok, err, ◌>>=◌, ◌>>◌, guard, ok_or}
use clotho.ApiErrors.{ApiError, invalid_request, idempotency_conflict, internal}

-- The value of the header, if it is sent, or the error of a value that is no text.
pub data HeaderValue : Type 0 where
  absent no_text : HeaderValue
  text : Bytes → HeaderValue

is_key_byte : ℕ → Bool
is_key_byte c = is_alphanumeric c || (c == b'.' || (c == b'_' || (c == b':' || c == b'-')))

unfoldable pub max_key_bytes : ℕ
max_key_bytes = 128

unfoldable pub extract_key : HeaderValue → Result ApiError (Option Bytes)
unfolding is_key_byte max_key_bytes
extract_key absent = ok none
extract_key no_text = err (invalid_request "Idempotency-Key must be ASCII")
extract_key (text value) = do
  guard (not (is_empty value || (ltb max_key_bytes (length value) || not (all is_key_byte value))))
      (invalid_request "Idempotency-Key must be 1..128 characters")
  ok (some value)

-- What a key belongs to, and what is asked for with it.
pub record KeyedRequest : Type 0 where
  pub org_id : Bytes
  pub principal_id : Bytes
  pub key : Bytes
  pub operation : Bytes
  pub request_fingerprint : Bytes

-- A row of `idempotency_records`; `V` is a JSON value.
pub record StoredResponse (V : Type 0) : Type 0 where
  pub org_id : Bytes
  pub principal_id : Bytes
  pub key_hash : Bytes
  pub operation : Bytes
  pub request_fingerprint : Bytes
  pub resource_id : Bytes
  pub response_status : ℕ
  pub response_body : V
  pub expires_at : ℕ

-- The two tables; `R` is a run.
pub record Tables (R V : Type 0) : Type 0 where
  pub records : List (StoredResponse V)
  pub action_runs : List R

-- 24 hours, the default of the column, in milliseconds.
unfoldable pub key_retention : ℕ
key_retention = 24 * 60 * 60 * 1000

unfoldable pub max_response_bytes : ℕ
max_response_bytes = 64 * 1024

module _ {V : Type 0} where
  unfoldable pub has_key : (org_id principal_id key_hash : Bytes) → StoredResponse V → Bool
  has_key org_id principal_id key_hash row =
      beq row.org_id org_id && (beq row.principal_id principal_id && beq row.key_hash key_hash)

  unfoldable pub expire_key :
      (org_id principal_id key_hash : Bytes)
      → (now : ℕ) → List (StoredResponse V)
      → List (StoredResponse V)
  unfolding has_key
  expire_key org_id principal_id key_hash now [] = []
  expire_key org_id principal_id key_hash now (row ∷ rows) =
      let rest = expire_key org_id principal_id key_hash now rows in
      if has_key org_id principal_id key_hash row && leb row.expires_at now
      then rest
      else row ∷ rest

  unfoldable pub find_key :
      (org_id principal_id key_hash : Bytes) → List (StoredResponse V) → Option (StoredResponse V)
  unfolding has_key
  find_key org_id principal_id key_hash [] = none
  find_key org_id principal_id key_hash (row ∷ rows) =
      if has_key org_id principal_id key_hash row
      then some row
      else find_key org_id principal_id key_hash rows

  unfoldable pub require_match :
      StoredResponse V → (operation request_fingerprint : Bytes) → Result ApiError (Unit {0})
  require_match stored operation request_fingerprint =
      guard (beq stored.operation operation && beq stored.request_fingerprint request_fingerprint)
        (idempotency_conflict "Idempotency-Key was already used for a different request")

module _ {R V : Type 0} (run_id : R → Bytes) (to_value : R → V) (size : V → ℕ)
    (from_value : V → Option R) (sha256 : Bytes → Bytes) where
  unfoldable pub replay_stored : KeyedRequest → StoredResponse V → Result ApiError R
  unfolding require_match
  replay_stored request stored = do
    require_match stored request.operation request.request_fingerprint
    guard (stored.response_status == 202)
        (internal "stored idempotency response has an invalid status")
    replayed ← ok_or (from_value stored.response_body) (internal "decode Action replay")
    guard (beq (run_id replayed) stored.resource_id)
        (internal "stored idempotency response has an invalid resource")
    ok replayed

  -- What is left of the transaction for the result of a replay.
  unfoldable pub replay_outcome :
      (before kept : Tables R V) → Result ApiError R → Result ApiError (R × Bool) × Tables R V
  replay_outcome before kept (ok run) = (ok (run, true), kept)
  replay_outcome before kept (err e) = (err e, before)

  unfoldable pub reserved :
      KeyedRequest
      → R
      → (now : ℕ) → (before kept : Tables R V) → Option (StoredResponse V)
      → Result ApiError (R × Bool) × Tables R V
  unfolding replay_stored replay_outcome key_retention
  reserved request run now before kept (some stored) =
      replay_outcome before kept (replay_stored request stored)
  reserved request run now before kept none = (
    ok (run, false),
    record {
      records =
          record {
            org_id = request.org_id;
            principal_id = request.principal_id;
            key_hash = sha256 request.key;
            operation = request.operation;
            request_fingerprint = request.request_fingerprint;
            resource_id = run_id run;
            response_status = 202;
            response_body = to_value run;
            expires_at = now + key_retention;
          }
          ∷ kept.records;
      action_runs = run ∷ kept.action_runs;
    },
  )

  unfoldable pub without_expired : KeyedRequest → (now : ℕ) → Tables R V → Tables R V
  unfolding expire_key
  without_expired request now tables = record {
    records =
        expire_key request.org_id request.principal_id (sha256 request.key) now tables.records;
    action_runs = tables.action_runs;
  }

  -- `run` is what `build_run` has made for the request.
  unfoldable pub create_run_idempotent :
      KeyedRequest → R → (now : ℕ) → Tables R V → Result ApiError (R × Bool) × Tables R V
  unfolding reserved find_key without_expired max_response_bytes
  create_run_idempotent request run now tables =
      if ltb max_response_bytes (size (to_value run))
      then (err (internal "Action response exceeds the idempotency storage bound"), tables)
      else reserved request run now tables (without_expired request now tables) (
          find_key request.org_id request.principal_id (sha256 request.key)
            (without_expired request now tables).records)
