-- ===== src/Idempotency/Tests.antt =====
-- Keyed requests at concrete inputs; a run is its id, and a value holds a run.
use clotho.Prelude.{
  ◌+◌, ◌<◌, ◌≤◌, ◌≡◌, refl, true, false, ◌&&◌, some, [], ◌∷◌, arith, if◌then◌else◌,
}
use clotho.Prelude.Bytes.{Bytes, lit, beq, text_code}
use clotho.Prelude.Results.{ok, err}
use clotho.ApiErrors.{idempotency_conflict, invalid_request}
use clotho.Idempotency.{
  text, extract_key, max_key_bytes, KeyedRequest, Tables, key_retention, max_response_bytes,
  has_key, expire_key, find_key, require_match, replay_stored, replay_outcome, reserved,
  without_expired, create_run_idempotent,
}
use clotho.Idempotency.Replays.{create_all, create-replays}

key_code : Unit {0}
unfolding create_run_idempotent reserved replay_stored replay_outcome without_expired require_match
    has_key expire_key find_key key_retention max_response_bytes text_code extract_key max_key_bytes
key_code = tt

abbrev asked : (operation : Bytes) → KeyedRequest
unfolding lit
asked operation = record {
  org_id = lit "o1";
  principal_id = lit "u1";
  key = lit "k-1";
  operation = operation;
  request_fingerprint = lit "f";
}

abbrev start : KeyedRequest
unfolding lit
start = asked (lit "action.start")

abbrev retry : KeyedRequest
unfolding lit
retry = asked (lit "action.retry")

abbrev empty : Tables Bytes Bytes
empty = record { records = []; action_runs = [] }

bad_key :
    extract_key (text (lit "a b"))
    ≡ err (invalid_request "Idempotency-Key must be 1..128 characters")
unfolding key_code
bad_key = refl

is_new :
    (create_run_idempotent (λ x. x) (λ x. x) (λ v. 9) some (λ x. x) start (lit "r1") 5 empty).0
    ≡ ok (lit "r1", false)
unfolding key_code
is_new = refl

other_operation :
    (create_run_idempotent
      (λ x. x)
      (λ x. x)
      (λ v. 9)
      some
      (λ x. x)
      retry
      (lit "r2")
      6
      (create_run_idempotent (λ x. x) (λ x. x) (λ v. 9) some (λ x. x) start (lit "r1") 5 empty).1).0
    ≡ err (idempotency_conflict "Idempotency-Key was already used for a different request")
unfolding key_code
other_operation = refl

in_window : 7 < 5 + key_retention
unfolding key_code
in_window = omega arith

fits : 9 ≤ max_response_bytes
unfolding key_code
fits = omega arith

create-replays_example :
    let before =
      create_all
        (λ x. x)
        (λ x. x)
        (λ v. 9)
        some
        (λ x. x)
        ((7, retry, lit "r2") ∷ [])
        (create_run_idempotent
          (λ x. x)
          (λ x. x)
          (λ v. 9)
          some
          (λ x. x)
          start
          (lit "r1")
          5
          empty).1 in
    let after =
      create_run_idempotent (λ x. x) (λ x. x) (λ v. 9) some (λ x. x) start (lit "r3") 7 before in
    (after.0 ≡ (
      if beq start.operation start.operation
        && beq start.request_fingerprint start.request_fingerprint
      then ok (lit "r1", true)
      else err (idempotency_conflict "Idempotency-Key was already used for a different request")))
    × (after.1.action_runs ≡ before.action_runs)
create-replays_example =
    create-replays (λ x. x) (λ x. x) (λ v. 9) some (λ x. x) start start (lit "r1") (lit "r1")
      (lit "r3") 5 7 empty ((7, retry, lit "r2") ∷ []) is_new refl (in_window, tt) in_window fits
      (refl, refl, refl)
