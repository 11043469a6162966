-- ===== src/Compute/Base64.antt =====
-- The standard base64 of box_provider.rs and computesdk.rs, with padding.
use clotho.Prelude.{
  ℕ, ◌+◌, ◌*◌, ◌-◌, ◌/◌, ◌%◌, ◌<◌, ◌≡◌, refl, ap, ap₂, false, [], ◌∷◌, ◌++◌, All, leb, ltb, ◌==◌,
  if◌then◌else◌, arith,
}
use clotho.Prelude.Bytes.{Bytes}

-- The table `T`, at an index below 64.
unfoldable pub digit_of : ℕ → ℕ
digit_of n =
    if ltb n 26
    then n + b'A'
    else if ltb n 52
    then n - 26 + b'a'
    else if ltb n 62
    then n - 52 + b'0'
    else if n == 62
    then b'+'
    else b'/'

-- Chunks of three bytes; `(n >> k) & 63` is `n / 2 ^ k % 64`.
unfoldable pub base64_encode : Bytes → Bytes
unfolding digit_of
base64_encode [] = []
base64_encode (b0 ∷ []) =
    let n = b0 * 65536 in digit_of (n / 262144 % 64) ∷ digit_of (n / 4096 % 64) ∷ b'=' ∷ b'=' ∷ []
base64_encode (b0 ∷ b1 ∷ []) =
    let n = b0 * 65536 + b1 * 256 in
    digit_of (n / 262144 % 64) ∷ digit_of (n / 4096 % 64) ∷ digit_of (n / 64 % 64) ∷ b'=' ∷ []
base64_encode (b0 ∷ b1 ∷ b2 ∷ rest) =
    let n = b0 * 65536 + b1 * 256 + b2 in
    digit_of (n / 262144 % 64)
    ∷ digit_of (n / 4096 % 64)
    ∷ digit_of (n / 64 % 64)
    ∷ digit_of (n % 64)
    ∷ base64_encode rest

-- A reader of padded base64, to say what the text means.
unfoldable pub digit_value : ℕ → ℕ
digit_value c =
    if leb b'a' c
    then c - b'a' + 26
    else if leb b'A' c
    then c - b'A'
    else if leb b'0' c
    then c - b'0' + 52
    else if c == b'+'
    then 62
    else 63

unfoldable pub read_group : (a b c d : ℕ) → Bytes
unfolding digit_value
read_group a b c d =
    let high = digit_value a * 4 + digit_value b / 16 in
    if c == b'='
    then high ∷ []
    else if d == b'='
    then high ∷ (digit_value b % 16 * 16 + digit_value c / 4) ∷ []
    else high
      ∷ (digit_value b % 16 * 16 + digit_value c / 4)
      ∷ (digit_value c % 4 * 64 + digit_value d)
      ∷ []

unfoldable pub read_base64 : Bytes → Bytes
unfolding read_group
read_base64 (a ∷ b ∷ c ∷ d ∷ rest) = read_group a b c d ++ read_base64 rest
read_base64 _ = []

digit_value-digit_of : (n : ℕ) → n < 64 → digit_value (digit_of n) ≡ n
unfolding digit_value digit_of
digit_value-digit_of n h = ground arith

digit_no_pad : (n : ℕ) → n < 64 → (digit_of n == b'=') ≡ false
unfolding digit_of
digit_no_pad n h = ground arith

module _ (b0 b1 b2 : ℕ) (h0 : b0 < 256) (h1 : b1 < 256) (h2 : b2 < 256) where
  first_byte_back :
      (b0 * 65536 + b1 * 256 + b2) / 262144 % 64 * 4 + (b0 * 65536 + b1 * 256 + b2) / 4096 % 64 / 16
      ≡ b0
  first_byte_back = omega arith

  second_byte_back :
      (b0 * 65536 + b1 * 256 + b2) / 4096 % 64 % 16 * 16
        + (b0 * 65536 + b1 * 256 + b2) / 64 % 64 / 4
      ≡ b1
  second_byte_back = omega arith

  third_byte_back :
      (b0 * 65536 + b1 * 256 + b2) / 64 % 64 % 4 * 64 + (b0 * 65536 + b1 * 256 + b2) % 64 ≡ b2
  third_byte_back = omega arith

two_bytes : (b0 b1 : ℕ) → b0 * 65536 + b1 * 256 ≡ b0 * 65536 + b1 * 256 + 0
two_bytes b0 b1 = omega arith

one_byte : (b0 : ℕ) → b0 * 65536 ≡ b0 * 65536 + 0 * 256 + 0
one_byte b0 = omega arith

digit_back : (n : ℕ) → digit_value (digit_of (n % 64)) ≡ n % 64
digit_back n = digit_value-digit_of (n % 64) (omega arith)

not_pad : (n : ℕ) → (digit_of (n % 64) == b'=') ≡ false
not_pad n = digit_no_pad (n % 64) (omega arith)

-- The groups that the encoder writes are read back.
module _ (b0 b1 b2 : ℕ) (h0 : b0 < 256) (h1 : b1 < 256) (h2 : b2 < 256) where
  module _ (n : ℕ) (is_n : n ≡ b0 * 65536 + b1 * 256 + b2) where
    first_digits :
        digit_value (digit_of (n / 262144 % 64)) * 4 + digit_value (digit_of (n / 4096 % 64)) / 16
        ≡ b0
    first_digits =
        rw (digit_back (n / 262144), digit_back (n / 4096), is_n)
          (first_byte_back b0 b1 b2 h0 h1 h2)

    second_digits :
        digit_value (digit_of (n / 4096 % 64)) % 16 * 16 + digit_value (digit_of (n / 64 % 64)) / 4
        ≡ b1
    second_digits =
        rw (digit_back (n / 4096), digit_back (n / 64), is_n) (second_byte_back b0 b1 b2 h0 h1 h2)

    third_digits :
        digit_value (digit_of (n / 64 % 64)) % 4 * 64 + digit_value (digit_of (n % 64)) ≡ b2
    third_digits = rw (digit_back (n / 64), digit_back n, is_n) (third_byte_back b0 b1 b2 h0 h1 h2)

    three_back :
        read_group
          (digit_of (n / 262144 % 64))
          (digit_of (n / 4096 % 64))
          (digit_of (n / 64 % 64))
          (digit_of (n % 64))
        ≡ b0 ∷ b1 ∷ b2 ∷ []
    three_back =
        unfold read_group in
        rw (not_pad (n / 64), not_pad n)
          (ap₂ (λ x xs. x ∷ xs) first_digits
            (ap₂ (λ x xs. x ∷ xs) second_digits (ap (λ x. x ∷ []) third_digits)))

    two_back :
        read_group
          (digit_of (n / 262144 % 64))
          (digit_of (n / 4096 % 64))
          (digit_of (n / 64 % 64))
          b'='
        ≡ b0 ∷ b1 ∷ []
    two_back =
        unfold read_group in
        rw (not_pad (n / 64)) (ap₂ (λ x xs. x ∷ xs) first_digits (ap (λ x. x ∷ []) second_digits))

    one_back :
        read_group (digit_of (n / 262144 % 64)) (digit_of (n / 4096 % 64)) b'=' b'=' ≡ b0 ∷ []
    one_back = unfold read_group in ap (λ x. x ∷ []) first_digits

-- Bytes are read back from their base64 text.
pub read_base64-encode :
    (bytes : Bytes) → All (λ x. x < 256) bytes → read_base64 (base64_encode bytes) ≡ bytes
unfolding read_base64 base64_encode
read_base64-encode [] h = refl
read_base64-encode (b0 ∷ []) (h0, _) =
    rw (one_back b0 0 0 h0 (omega arith) (omega arith) (b0 * 65536) (one_byte b0)) refl
read_base64-encode (b0 ∷ b1 ∷ []) (h0, (h1, _)) =
    rw (two_back b0 b1 0 h0 h1 (omega arith) (b0 * 65536 + b1 * 256) (two_bytes b0 b1)) refl
read_base64-encode (b0 ∷ b1 ∷ b2 ∷ rest) (h0, (h1, (h2, t))) =
    rw (three_back b0 b1 b2 h0 h1 h2 (b0 * 65536 + b1 * 256 + b2) refl, read_base64-encode rest t)
      refl
