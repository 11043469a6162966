-- ===== src/Webhooks/Signature.antt =====
-- The signature of a delivery: HMAC-SHA256 of the body, in hexadecimal.
use clotho.Prelude.{
  ℕ, ◌+◌, ◌*◌, ◌-◌, ◌/◌, ◌%◌, ◌<◌, ◌≡◌, refl, ap, Bool, true, false, not, ◌&&◌, Option, none, some,
  [], ◌∷◌, All, length, leb, ◌==◌, if◌then◌else◌, arith,
}
use clotho.Prelude.Bytes.{Bytes, lit, beq, beq_iff, beq_refl, is_digit, is_empty, strip_prefix}
use clotho.Prelude.Results.{
  Result, ok, ◌>>=◌, ◌>>◌, guard, ok_or, >>=-eq-ok, ok_or-eq-ok, guard-eq-ok,
}
use clotho.ApiErrors.{ApiError, internal, unauthorized}

-- `char::to_digit(16)`
unfoldable hex_digit : ℕ → Option ℕ
hex_digit c =
    if is_digit c
    then some (c - b'0')
    else if leb b'a' c && leb c b'f'
    then some (c - 87)
    else if leb b'A' c && leb c b'F'
    then some (c - 55)
    else none

two_digits : Option ℕ → Option ℕ → Option ℕ
two_digits (some high) (some low) = some (high * 16 + low)
two_digits _ _ = none

-- `u8::from_str_radix(…, 16)` of two bytes, which takes a leading plus sign.
from_str_radix : (a b : ℕ) → Option ℕ
unfolding hex_digit two_digits
from_str_radix a b = if a == b'+' then hex_digit b else two_digits (hex_digit a) (hex_digit b)

with_byte : Option ℕ → Option Bytes → Option Bytes
with_byte (some byte) (some rest) = some (byte ∷ rest)
with_byte _ _ = none

-- `none` is the error of an odd length too.
unfoldable pub decode_hex : Bytes → Option Bytes
unfolding from_str_radix with_byte
decode_hex [] = some []
decode_hex (c ∷ []) = none
decode_hex (a ∷ b ∷ rest) = with_byte (from_str_radix a b) (decode_hex rest)

or_else : Option Bytes → Option Bytes → Option Bytes
or_else (some found) otherwise = some found
or_else none otherwise = otherwise

unprefixed : Option Bytes → Option Bytes
unprefixed (some value) = strip_prefix (lit "sha256=") value
unprefixed none = none

-- `header` looks a header up and takes its text.
unfoldable pub signature_of : (header : Bytes → Option Bytes) → Option Bytes
unfolding or_else unprefixed
signature_of header =
    or_else (header (lit "x-forgejo-signature"))
      (or_else (header (lit "x-gitea-signature")) (unprefixed (header (lit "x-hub-signature-256"))))

module _ (hmac : (secret body : Bytes) → Bytes) where
  -- `verify_slice` compares the tags.
  verify_slice : (secret body : Bytes) → Option Bytes → Bool
  verify_slice secret body none = false
  verify_slice secret body (some expected) = beq (hmac secret body) expected

  unfoldable pub verify : (secret body sig_hex : Bytes) → Bool
  unfolding decode_hex verify_slice
  verify secret body sig_hex =
      (length sig_hex == 64) && verify_slice secret body (decode_hex sig_hex)

  unfoldable pub require_signature :
      (secret : Bytes) (header : Bytes → Option Bytes) (body : Bytes) → Result ApiError (Unit {0})
  unfolding signature_of verify
  require_signature secret header body = do
    guard (not (is_empty secret)) (internal "webhook signing secret is not configured")
    signature ← ok_or (signature_of header) (unauthorized "invalid webhook signature")
    guard (verify secret body signature) (unauthorized "invalid webhook signature")

-- `{:x}` of the digest: two lower-case digits for each byte.
unfoldable pub show_digit : ℕ → ℕ
show_digit n = if leb n 9 then n + b'0' else n + 87

unfoldable pub show_hex : Bytes → Bytes
unfolding show_digit
show_hex [] = []
show_hex (x ∷ xs) = show_digit (x / 16) ∷ show_digit (x % 16) ∷ show_hex xs

hex_digit-show : (n : ℕ) → n < 16 → hex_digit (show_digit n) ≡ some n
unfolding hex_digit show_digit
hex_digit-show n h = ground arith

show_digit_plus : (n : ℕ) → n < 16 → (show_digit n == b'+') ≡ false
unfolding show_digit
show_digit_plus n h = ground arith

from_str_radix-show :
    (x : ℕ) → x < 256 → from_str_radix (show_digit (x / 16)) (show_digit (x % 16)) ≡ some x
unfolding from_str_radix two_digits
from_str_radix-show x h =
    rw
      (
        show_digit_plus (x / 16) (omega arith),
        hex_digit-show (x / 16) (omega arith),
        hex_digit-show (x % 16) (omega arith),
      )
      (ap some (omega arith))

-- The printed hexadecimal digits of bytes decode to the bytes.
pub decode_hex-show_hex :
    (bytes : Bytes) → All (λ x. x < 256) bytes → decode_hex (show_hex bytes) ≡ some bytes
unfolding decode_hex show_hex
decode_hex-show_hex [] h = refl
decode_hex-show_hex (x ∷ xs) (small, rest) =
    rw (from_str_radix-show x small, decode_hex-show_hex xs rest) refl

-- What an accepted signature is.
pub record IsSigned (hmac : (secret body : Bytes) → Bytes) (secret : Bytes)
    (header : Bytes → Option Bytes) (body : Bytes) : Type 0 where
  pub has_secret : is_empty secret ≡ false
  pub signature : Bytes
  pub is_sent : signature_of header ≡ some signature
  pub is_tag : decode_hex signature ≡ some (hmac secret body)

module _ (hmac : (secret body : Bytes) → Bytes) where
  verify_slice-eq-true :
      (secret body : Bytes) (expected : Option Bytes)
      → verify_slice hmac secret body expected ≡ true
      → expected ≡ some (hmac secret body)
  unfolding verify_slice
  verify_slice-eq-true secret body none h = cc
  verify_slice-eq-true secret body (some expected) h =
      ap some (cc ((beq_iff (hmac secret body) expected).0 h))

  verify-eq-true :
      (secret body sig_hex : Bytes)
      → verify hmac secret body sig_hex ≡ true
      → decode_hex sig_hex ≡ some (hmac secret body)
  unfolding verify
  verify-eq-true secret body sig_hex h =
      verify_slice-eq-true secret body (decode_hex sig_hex) (ground arith)

  not-eq-true : (b : Bool) → not b ≡ true → b ≡ false
  not-eq-true b h = ground arith

  pub require_signature-IsSigned :
      (secret : Bytes) (header : Bytes → Option Bytes) (body : Bytes) {u : Unit {0}}
      → require_signature hmac secret header body ≡ ok u
      → IsSigned hmac secret header body
  unfolding require_signature
  require_signature-IsSigned secret header body h =
      let (_, has_secret, h1) = >>=-eq-ok (guard _ _) _ h in
      let (signature, sent, h2) = >>=-eq-ok (ok_or (signature_of header) _) _ h1 in
      record {
        has_secret =
            not-eq-true (is_empty secret) (guard-eq-ok (not (is_empty secret)) _ has_secret);
        signature = signature;
        is_sent = ok_or-eq-ok (signature_of header) _ sent;
        is_tag = verify-eq-true secret body signature (guard-eq-ok _ _ h2);
      }

length-show_hex : (bytes : Bytes) → length (show_hex bytes) ≡ 2 * length bytes
unfolding show_hex
length-show_hex [] = refl
length-show_hex (x ∷ xs) = omega (arith, length-show_hex xs)

-- A body is accepted with its tag in hexadecimal in Forgejo's header, if a secret is configured and
-- the tag has 32 bytes.
pub require_signature-show_hex :
    (hmac : (secret body : Bytes) → Bytes) (secret : Bytes) (header : Bytes → Option Bytes)
    (body : Bytes)
    → is_empty secret ≡ false
    → header (lit "x-forgejo-signature") ≡ some (show_hex (hmac secret body))
    → length (hmac secret body) ≡ 32
    → All (λ x. x < 256) (hmac secret body)
    → require_signature hmac secret header body ≡ ok tt
unfolding require_signature signature_of verify
require_signature-show_hex hmac secret header body has_secret sent size bytes =
    rw
      (
        has_secret,
        sent,
        length-show_hex (hmac secret body),
        size,
        decode_hex-show_hex (hmac secret body) bytes,
        beq_refl (hmac secret body),
      )
      refl
