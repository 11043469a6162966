-- ===== src/Webhooks/Handler.antt =====
-- The receiver of a delivery: signature, headers, payload, reservation, cleanup, and the start of CI.
pub mod Starts
pub mod Once
mod Tests
use clotho.Prelude.{
  suc, zero, ℕ, ◌≡◌, Bool, true, false, not, ◌&&◌, Option, none, some, List, [], ◌∷◌, ◌++◌, take,
  leb, ltb, ◌==◌, if◌then◌else◌,
}
use clotho.Prelude.Bytes.{Bytes, lit, beq, is_empty}
use clotho.Prelude.Results.{Result, ok, err, ◌>>=◌, ◌>>◌, guard, ok_or}
use clotho.ApiErrors.{ApiError, invalid_request, not_found, internal}
use clotho.Access.{Database, RepoWithOrg, get_repo_with_org}
use clotho.Webhooks.{
  event_name, delivery_id, valid_commit_sha, all_bytes, Reservation, fresh, replay, Delivery, Row,
  reserve_delivery,
}
use clotho.Webhooks.Signature.{require_signature, show_hex}
use Prim.Native.String.{String}

-- `name` is that of the repository.
pub record PushPayload : Type 0 where
  pub after : Bytes
  pub name : Bytes

-- A request; `now` and `cleanup_at` are the database's times, and `cleanup_fails` its answer.
pub record Request : Type 0 where
  pub header : Bytes → Option Bytes
  pub body : Bytes
  pub now : ℕ
  pub cleanup_at : ℕ
  pub cleanup_fails : Bool

-- `AppState`, as far as it is read.
pub record HookState : Type 0 where
  pub webhook_secret : Bytes
  pub pool : Option Database

-- The table of deliveries, and the CI runs that were started, oldest first.
pub record Server : Type 0 where
  pub rows : List Row
  pub started : List (Bytes × Bytes)

-- The reply's body; `accepted` has status 202, the others 200.
pub data Reply : Type 0 where
  ignored : (reason : String) → Reply
  replayed accepted : (repo sha : Bytes) → Reply

-- `order by expires_at`
unfoldable insert_row : Row → List Row → List Row
insert_row r [] = r ∷ []
insert_row r (x ∷ xs) =
    let rest = insert_row r xs in if leb r.expires_at x.expires_at then r ∷ x ∷ xs else x ∷ rest

-- `where expires_at <= now()`
unfoldable expired : (now : ℕ) → List Row → List Row
unfolding insert_row
expired now [] = []
expired now (r ∷ rows) =
    let rest = expired now rows in if leb r.expires_at now then insert_row r rest else rest

unfoldable cleanup_batch_size : ℕ
cleanup_batch_size = 1000

-- `ctid in (…)`: the delivery's hash is the table's key.
unfoldable is_among : Row → List Row → Bool
is_among r [] = false
is_among r (x ∷ xs) =
    let rest = is_among r xs in
    if beq x.delivery.delivery_hash r.delivery.delivery_hash then true else rest

unfoldable without : (now : ℕ) → (batch rows : List Row) → List Row
unfolding is_among
without now batch [] = []
without now batch (r ∷ rows) =
    let rest = without now batch rows in
    if leb r.expires_at now && is_among r batch then rest else r ∷ rest

-- A failure is logged and changes nothing.
unfoldable pub cleanup_expired : (fails : Bool) → (now : ℕ) → List Row → List Row
unfolding expired cleanup_batch_size without
cleanup_expired true now rows = rows
cleanup_expired false now rows = without now (take cleanup_batch_size (expired now rows)) rows

-- What a request is once its checks have passed; a push has a reservation to make.
pub data Admitted : Type 0 where
  other_event : Admitted
  push : (repo sha : Bytes) → (delivery : Delivery) → Admitted

unfoldable pub sha256 : (digest : Bytes → Bytes) → Bytes → Bytes
unfolding show_hex
sha256 digest value = show_hex (digest value)

unfoldable pub id_of : Request → Result ApiError Bytes
unfolding delivery_id
id_of request =
    delivery_id (request.header (lit "x-forgejo-delivery"))
      (request.header (lit "x-gitea-delivery"))

unfoldable pub event_of : Request → Result ApiError Bytes
unfolding event_name
event_of request =
    event_name (request.header (lit "x-forgejo-event")) (request.header (lit "x-gitea-event"))

-- The delivery of a push whose payload can be read.
unfoldable pub pushed :
    Database → (delivery_hash payload_hash : Bytes) → PushPayload → Result ApiError Admitted
unfolding valid_commit_sha get_repo_with_org
pushed db delivery_hash payload_hash payload = do
  guard (not (is_empty payload.name)) (invalid_request "webhook payload is missing repository name")
  guard (valid_commit_sha payload.after)
      (invalid_request "webhook payload has an invalid commit sha")
  found ← get_repo_with_org db payload.name
  clotho_repo ← ok_or found (not_found "webhook repository not found")
  ok (
      push payload.name payload.after (record {
        delivery_hash = delivery_hash;
        payload_hash = payload_hash;
        org_id = clotho_repo.org_id;
        repo_id = clotho_repo.id;
        event_type = lit "push";
        commit_sha = payload.after;
      }))

-- What follows a reservation that was made.
unfoldable pub start_ci :
    (repo sha : Bytes)
    → Reservation
    → (cleaned : List Row) → List (Bytes × Bytes)
    → Result ApiError Reply × Server
unfolding all_bytes
start_ci repo sha replay cleaned started =
    (ok (replayed repo sha), record { rows = cleaned; started = started })
start_ci repo sha fresh cleaned started =
    if all_bytes (λ byte. byte == b'0') sha
    then (
      ok (ignored "branch deletion, nothing to check"),
      record { rows = cleaned; started = started },
    )
    else (ok (accepted repo sha), record { rows = cleaned; started = started ++ (repo, sha) ∷ [] })

unfoldable pub after_reservation :
    (repo sha : Bytes)
    → Request
    → List (Bytes × Bytes)
    → Result ApiError Reservation × List Row
    → Result ApiError Reply × Server
unfolding cleanup_expired start_ci
after_reservation repo sha request started (err e, rows) =
    (err e, record { rows = rows; started = started })
after_reservation repo sha request started (ok reservation, rows) =
    start_ci repo sha reservation (cleanup_expired request.cleanup_fails request.cleanup_at rows)
      started

unfoldable pub proceed :
    Result ApiError Admitted → Request → Server → Result ApiError Reply × Server
unfolding reserve_delivery after_reservation
proceed (err e) request server = (err e, server)
proceed (ok other_event) request server = (ok (ignored "event ignored"), server)
proceed (ok (push repo sha delivery)) request server =
    after_reservation repo sha request server.started
      (reserve_delivery delivery request.now server.rows)

module _ (digest : Bytes → Bytes) (hmac : (secret body : Bytes) → Bytes)
    (from_slice : Bytes → Option PushPayload) where
  read_push :
      Database
      → (delivery_hash payload_hash body : Bytes) → (event : Bytes) → Result ApiError Admitted
  unfolding pushed
  read_push db delivery_hash payload_hash body event =
      let pushed_body =
        ok_or (from_slice body) (invalid_request "invalid webhook payload")
        >>= pushed db delivery_hash payload_hash in
      if beq event (lit "push") then pushed_body else ok other_event

  unfoldable pub admit : HookState → Request → Result ApiError Admitted
  unfolding require_signature sha256 id_of event_of read_push
  admit state request = do
    require_signature hmac state.webhook_secret request.header request.body
    id ← id_of request
    db ← ok_or state.pool (internal "webhook replay database is not configured")
    event ← event_of request
    read_push db (sha256 digest id) (sha256 digest request.body) request.body event

  unfoldable pub forgejo : HookState → Request → Server → Result ApiError Reply × Server
  unfolding admit proceed
  forgejo state request server = proceed (admit state request) request server
