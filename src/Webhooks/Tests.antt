-- ===== src/Webhooks/Tests.antt =====
-- Deliveries at concrete inputs.
use clotho.Prelude.{◌<◌, ◌≤◌, ◌≡◌, refl, false, none, some, [], ◌∷◌, All, length}
use clotho.Prelude.Bytes.{Bytes, lit, text_code}
use clotho.Prelude.Results.{ok, err}
use clotho.ApiErrors.{invalid_request}
use clotho.Webhooks.{
  Delivery, retention, expire, find, matches, reserve_delivery, event_name, delivery_id,
  valid_commit_sha, all_bytes, max_delivery_id_bytes,
}
use clotho.Webhooks.Headers.{IsEventByte, event_name-IsName}

hook_code : Unit {0}
unfolding reserve_delivery event_name delivery_id valid_commit_sha all_bytes max_delivery_id_bytes
    retention expire find matches text_code
hook_code = tt

named : event_name (some (lit "Push")) (some (lit "push")) ≡ ok (lit "push")
unfolding hook_code
named = refl

differing :
    event_name (some (lit "push")) (some (lit "issues"))
    ≡ err (invalid_request "conflicting webhook event headers")
unfolding hook_code
differing = refl

no_spaces :
    delivery_id (some (lit "a b")) none
    ≡ err (invalid_request "webhook delivery id must be 1..128 visible ASCII characters")
unfolding hook_code
no_spaces = refl

short_sha : valid_commit_sha (lit "abc") ≡ false
unfolding hook_code
short_sha = refl

event_name-IsName_example :
    (0 < length (lit "push")) × (length (lit "push") ≤ 64) × All IsEventByte (lit "push")
event_name-IsName_example =
    event_name-IsName (some (lit "Push")) (some (lit "push")) (lit "push") named

abbrev delivery : Bytes → Bytes → Delivery
delivery hash payload = record {
  delivery_hash = hash;
  payload_hash = payload;
  org_id = [];
  repo_id = [];
  event_type = [];
  commit_sha = [];
}

abbrev first : Delivery
first = delivery (1 ∷ []) (7 ∷ [])

abbrev other : Delivery
other = delivery (2 ∷ []) (7 ∷ [])
