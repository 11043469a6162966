-- ===== src/Webhooks/Handler/Tests.antt =====
-- The receiver at concrete deliveries.
use clotho.Prelude.{
  ◌+◌, ◌<◌, ◌≡◌, ◌⊎◌, refl, true, false, Option, none, some, [], ◌∷◌, if◌then◌else◌, arith,
}
use clotho.Prelude.Bytes.{Bytes, lit, beq, text_code}
use clotho.Prelude.Results.{ok, err}
use clotho.ApiErrors.{unauthorized}
use clotho.Access.{Database, get_repo_with_org}
use clotho.Webhooks.{
  Delivery, retention, reserve_delivery, event_name, delivery_id, valid_commit_sha, all_bytes,
  max_delivery_id_bytes, expire, find, matches,
}
use clotho.Webhooks.Signature.{
  decode_hex, show_hex, decode_hex-show_hex, require_signature, require_signature-show_hex, verify,
  signature_of,
}
use clotho.Webhooks.Handler.{
  PushPayload, Request, HookState, Server, accepted, replayed, forgejo, admit, proceed,
  after_reservation, start_ci, cleanup_expired, id_of, event_of, pushed, sha256, read_push,
}
use clotho.Webhooks.Handler.Starts.{IsBefore, IsFreshPush}
use clotho.Webhooks.Handler.Once.{IsPush, forgejo-starts, forgejo_all, forgejo-starts_once}

hook_code : Unit {0}
unfolding forgejo admit proceed after_reservation start_ci id_of event_of pushed sha256
    reserve_delivery event_name delivery_id valid_commit_sha all_bytes max_delivery_id_bytes
    retention expire find matches text_code require_signature verify signature_of decode_hex
    show_hex cleanup_expired get_repo_with_org read_push
hook_code = tt

abbrev body : Bytes
unfolding lit
body = lit "0123456789abcdef0123456789abcdef"

abbrev sha : Bytes
unfolding lit
sha = lit "0123456789abcdef0123456789abcdef01234567"

abbrev demo : Bytes
unfolding lit
demo = lit "demo"

abbrev read_payload : Bytes → Option PushPayload
read_payload text = some (record { after = sha; name = demo })

abbrev tag : (secret text : Bytes) → Bytes
tag secret text = text

abbrev header : Bytes → Option Bytes
header name =
    if beq name (lit "x-forgejo-signature")
    then some (show_hex body)
    else if beq name (lit "x-forgejo-delivery")
    then some (lit "d1")
    else if beq name (lit "x-gitea-event")
    then some (lit "push")
    else none

abbrev database : Database
database = record {
  repos_named =
      λ name. ok (record { id = lit "r1"; org_id = lit "o1"; visibility = lit "public" } ∷ []);
  org_role = λ org_id user_id. ok none;
  repo_permission = λ repo_id user_id. ok none;
}

abbrev hook : HookState
hook = record { webhook_secret = lit "s"; pool = some database }

abbrev first : Request
first = record { header = header; body = body; now = 5; cleanup_at = 6; cleanup_fails = false }

abbrev again : Request
again = record { header = header; body = body; now = 9; cleanup_at = 9; cleanup_fails = true }

abbrev idle : Server
idle = record { rows = []; started = [] }

plus_digit : decode_hex (lit "+f") ≡ some (15 ∷ [])
unfolding decode_hex text_code
plus_digit = refl

odd_digits : decode_hex (lit "abc") ≡ none
unfolding decode_hex text_code
odd_digits = refl

starts : (forgejo (λ x. x) tag read_payload hook first idle).0 ≡ ok (accepted demo sha)
unfolding hook_code
starts = refl

replays :
    (forgejo
      (λ x. x)
      tag
      read_payload
      hook
      again
      (forgejo (λ x. x) tag read_payload hook first idle).1).0
    ≡ ok (replayed demo sha)
unfolding hook_code
replays = refl

unsigned :
    (forgejo (λ x. x) (λ secret text. secret) read_payload hook first idle).0
    ≡ err (unauthorized "invalid webhook signature")
unfolding hook_code
unsigned = refl

decode_hex-show_hex_example : decode_hex (show_hex (0 ∷ 171 ∷ [])) ≡ some (0 ∷ 171 ∷ [])
decode_hex-show_hex_example = decode_hex-show_hex (0 ∷ 171 ∷ []) (omega arith, (omega arith, tt))

require_signature-show_hex_example : require_signature tag (lit "s") header body ≡ ok tt
unfolding hook_code
require_signature-show_hex_example =
    require_signature-show_hex tag (lit "s") header body refl refl refl (ground arith)

before_end : first.cleanup_at < first.now + retention
unfolding hook_code
before_end = omega arith

again-IsBefore : IsBefore (first.now + retention) again
unfolding hook_code
again-IsBefore = record { at_reservation = omega arith; at_cleanup = omega arith }

forgejo-starts_example :
    ((forgejo (λ x. x) tag read_payload hook first idle).1.started ≡ [])
    ⊎ ((repo : Bytes) × (sha : Bytes) × (d : Delivery) × IsPush
          (λ x. x)
          tag
          read_payload
          hook
          first
          repo
          sha
          d
        × IsFreshPush repo sha d first idle (forgejo (λ x. x) tag read_payload hook first idle).1)
forgejo-starts_example = forgejo-starts (λ x. x) tag read_payload hook first idle

same_id : id_of again ≡ id_of first
unfolding id_of
same_id = refl

forgejo-starts_once_example :
    (forgejo
      (λ x. x)
      tag
      read_payload
      hook
      again
      (forgejo_all
        (λ x. x)
        tag
        read_payload
        hook
        (again ∷ [])
        (forgejo (λ x. x) tag read_payload hook first idle).1)).1.started
    ≡ (forgejo_all
        (λ x. x)
        tag
        read_payload
        hook
        (again ∷ [])
        (forgejo (λ x. x) tag read_payload hook first idle).1).started
forgejo-starts_once_example =
    forgejo-starts_once (λ x. x) tag read_payload hook first again idle demo sha (again ∷ []) starts
      before_end (again-IsBefore, tt) same_id again-IsBefore.at_reservation
