-- ===== src/Webhooks/Headers.antt =====
-- What the headers of a delivery may be.
use clotho.Prelude.{
  suc, ℕ, ◌<◌, ◌≤◌, ◌≡◌, ◌⊎◌, refl, ap, true, false, not, ◌||◌, Option, [], ◌∷◌, All, length, ltb,
  arith,
}
use clotho.Prelude.Bytes.{Bytes, is_empty, is_alphanumeric, lower_byte, to_ascii_lowercase}
use clotho.Prelude.Results.{ok, guard, >>=-eq-ok, ok-injective, guard-eq-ok}
use clotho.Webhooks.{all_bytes, is_name_byte, chosen, event_name}

-- A lower-case letter, a digit, '-' or '_'.
abbrev pub IsEventByte : ℕ → Type 0
IsEventByte c = (b'a' ≤ c × c ≤ b'z') ⊎ ((b'0' ≤ c × c ≤ b'9') ⊎ ((c ≡ b'-') ⊎ (c ≡ b'_')))

lowered_byte : (c : ℕ) → is_name_byte c ≡ true → IsEventByte (lower_byte c)
unfolding is_name_byte lower_byte is_alphanumeric
lowered_byte c h = ground arith

lowered_bytes :
    (s : Bytes) → all_bytes is_name_byte s ≡ true → All IsEventByte (to_ascii_lowercase s)
unfolding all_bytes to_ascii_lowercase
lowered_bytes [] h = tt
lowered_bytes (c ∷ cs) h = (lowered_byte c (ground arith), lowered_bytes cs (ground arith))

length-lowered : (s : Bytes) → length (to_ascii_lowercase s) ≡ length s
unfolding to_ascii_lowercase
length-lowered [] = refl
length-lowered (c ∷ cs) = ap suc (length-lowered cs)

some_length : (s : Bytes) → is_empty s ≡ false → 0 < length s
some_length [] h = cc
some_length (c ∷ cs) h = omega arith

-- An event name that is accepted has 1 to 64 bytes, each of them a lower-case letter, a digit,
-- '-' or '_', whatever the two headers are.
pub event_name-IsName :
    (forgejo gitea : Option Bytes) (name : Bytes)
    → event_name forgejo gitea ≡ ok name
    → (0 < length name) × (length name ≤ 64) × All IsEventByte name
unfolding event_name
event_name-IsName forgejo gitea name h =
    let (event, is_chosen, h1) = >>=-eq-ok (chosen _ _ _ forgejo gitea) _ h in
    let (u, passed, h2) = >>=-eq-ok (guard _ _) _ h1 in
    let tests =
      guard-eq-ok
        (not (is_empty event || (ltb 64 (length event) || not (all_bytes is_name_byte event)))) _
        passed in
    let same = ok-injective h2 in
    rw (← same) (
      omega (arith, length-lowered event, some_length event (ground arith)),
      ground (arith, length-lowered event),
      lowered_bytes event (ground arith),
    )
