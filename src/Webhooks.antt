-- ===== src/Webhooks.antt =====
-- crates/clotho-api-gateway/src/webhooks.rs: the headers of a webhook delivery, and the reservation
-- that makes a repeated delivery a replay. A reservation is one transaction: a refusal rolls it back.
pub mod Headers
pub mod Reservations
pub mod Signature
pub mod Handler
mod Tests
use clotho.Prelude.{
  ℕ, ◌+◌, ◌*◌, ◌≤◌, Bool, true, false, not, ◌&&◌, ◌||◌, ◌==◌, Option, none, some, List, [], ◌∷◌,
  length, leb, ltb, if◌then◌else◌,
}
use clotho.Prelude.Bytes.{
  Bytes, lit, is_empty, beq, is_alphanumeric, is_hexdigit, to_ascii_lowercase, eq_ignore_ascii_case,
}
use clotho.Prelude.Results.{Result, ok, err, ◌>>=◌, ◌>>◌, guard}
use clotho.ApiErrors.{ApiError, invalid_request, conflict}

unfoldable pub all_bytes : (ℕ → Bool) → Bytes → Bool
all_bytes test [] = true
all_bytes test (c ∷ cs) = test c && all_bytes test cs

-- The value of two headers that must not differ.
chosen :
    (same : Bytes → Bytes → Bool)
    → (differ missing : ApiError) → (forgejo gitea : Option Bytes) → Result ApiError Bytes
chosen same differ missing (some f) (some g) = if same f g then ok f else err differ
chosen same differ missing (some f) none = ok f
chosen same differ missing none (some g) = ok g
chosen same differ missing none none = err missing

is_name_byte : ℕ → Bool
is_name_byte c = is_alphanumeric c || (c == b'-' || c == b'_')

unfoldable pub event_name : (forgejo gitea : Option Bytes) → Result ApiError Bytes
unfolding chosen is_name_byte all_bytes
event_name forgejo gitea = do
  event ←
      chosen eq_ignore_ascii_case (invalid_request "conflicting webhook event headers")
        (invalid_request "missing X-Forgejo-Event or X-Gitea-Event header") forgejo gitea
  guard (not (is_empty event || (ltb 64 (length event) || not (all_bytes is_name_byte event))))
      (invalid_request "invalid webhook event header")
  ok (to_ascii_lowercase event)

unfoldable pub valid_commit_sha : Bytes → Bool
unfolding all_bytes
valid_commit_sha s = (length s == 40 || length s == 64) && all_bytes is_hexdigit s

unfoldable pub max_delivery_id_bytes : ℕ
max_delivery_id_bytes = 128

is_graphic : ℕ → Bool
is_graphic c = leb 33 c && leb c 126

unfoldable pub delivery_id : (forgejo gitea : Option Bytes) → Result ApiError Bytes
unfolding chosen is_graphic all_bytes max_delivery_id_bytes
delivery_id forgejo gitea = do
  id ←
      chosen beq (invalid_request "conflicting webhook delivery headers")
        (invalid_request "missing X-Forgejo-Delivery or X-Gitea-Delivery header") forgejo gitea
  guard
      (not
        (is_empty id || (ltb max_delivery_id_bytes (length id) || not (all_bytes is_graphic id))))
      (invalid_request "webhook delivery id must be 1..128 visible ASCII characters")
  ok id

-- `fresh` is `New`.
pub data Reservation : Type 0 where
  fresh replay : Reservation

-- What a delivery is identified by and compared with.
pub record Delivery : Type 0 where
  pub delivery_hash : Bytes
  pub payload_hash : Bytes
  pub org_id : Bytes
  pub repo_id : Bytes
  pub event_type : Bytes
  pub commit_sha : Bytes

-- A row of `webhook_deliveries`.
pub record Row : Type 0 where
  pub delivery : Delivery
  pub expires_at : ℕ

-- The retention in milliseconds.
unfoldable pub retention : ℕ
retention = 24 * 60 * 60 * 1000

-- `delete … where delivery_hash = $1 and expires_at <= now()`
unfoldable pub expire : (hash : Bytes) → (now : ℕ) → List Row → List Row
expire hash now [] = []
expire hash now (r ∷ rows) =
    let rest = expire hash now rows in
    if beq r.delivery.delivery_hash hash && leb r.expires_at now then rest else r ∷ rest

unfoldable pub find : (hash : Bytes) → List Row → Option Row
find hash [] = none
find hash (r ∷ rows) = if beq r.delivery.delivery_hash hash then some r else find hash rows

unfoldable pub matches : Delivery → Delivery → Bool
matches a b =
    beq a.payload_hash b.payload_hash
    && (beq a.org_id b.org_id
        && (beq a.repo_id b.repo_id
            && (beq a.event_type b.event_type && beq a.commit_sha b.commit_sha)))

-- The row that is found, if any, decides; `rows` is the table before the transaction.
settle :
    Delivery
    → (now : ℕ) → (rows kept : List Row) → Option Row
    → Result ApiError Reservation × List Row
unfolding matches retention
settle d now rows kept none =
    (ok fresh, record { delivery = d; expires_at = now + retention } ∷ kept)
settle d now rows kept (some r) =
    if matches r.delivery d
    then (ok replay, kept)
    else (err (conflict "webhook delivery id was already used for a different payload"), rows)

unfoldable pub reserve_delivery :
    Delivery → (now : ℕ) → List Row → Result ApiError Reservation × List Row
unfolding expire find settle
reserve_delivery d now rows =
    settle d now rows (expire d.delivery_hash now rows)
      (find d.delivery_hash (expire d.delivery_hash now rows))
