-- ===== src/Releases/ByteRanges.antt =====
-- The ranges that `parse_byte_range` accepts.
use clotho.Prelude.{
  ℕ, ◌-◌, ◌<◌, ◌≤◌, ◌≡◌, ◌≢◌, refl, ap, ◌∙◌, false, ◌||◌, Option, none, some, [], ◌∷◌, ◌++◌, min,
  ◌==◌, arith, Bool-cases, inl, inr,
}
use clotho.Prelude.Bytes.{
  Bytes, lit, strip_prefix, strip_prefix-append, contains_byte, contains_byte-append, split_once,
  split_once-append,
}
use clotho.Prelude.Decimal.{
  u64_mod, show_u64, parse_u64, parse_u64-show_u64, IsDigits, show_u64-IsDigits, show_u64-ne-nil,
}
use clotho.Prelude.Results.{Result, ok, err}
use clotho.ApiErrors.{ApiError}
use clotho.Prelude.Http.{Header, value}
use clotho.Releases.{
  ByteRange, suffix_range, from_range, one_range, spec_range, as_some, parse_byte_range,
}

pub record IsWithin (size : ℕ) (r : ByteRange) : Type 0 where
  pub ordered : r.start ≤ r.end
  pub inside : r.end < size

module _ (size : ℕ) {r : ByteRange} where
  suffix_range-IsWithin : (n : Option ℕ) → 0 < size → suffix_range size n ≡ ok r → IsWithin size r
  unfolding suffix_range
  suffix_range-IsWithin none h e = cc
  suffix_range-IsWithin (some n) h e = ground arith

  from_range-IsWithin :
      (start : Option ℕ) (end : Bytes) → from_range size start end ≡ ok r → IsWithin size r
  unfolding from_range
  from_range-IsWithin none end e = cc
  from_range-IsWithin (some start) [] e = ground arith
  from_range-IsWithin (some start) (c ∷ cs) e = ground arith

  one_range-IsWithin :
      (parts : Option (Bytes × Bytes)) → 0 < size → one_range size parts ≡ ok r → IsWithin size r
  unfolding one_range
  one_range-IsWithin none h e = cc
  one_range-IsWithin (some ([], end)) h e = suffix_range-IsWithin (parse_u64 end) h e
  one_range-IsWithin (some (c ∷ cs, end)) h e = from_range-IsWithin (parse_u64 (c ∷ cs)) end e

  spec_range-IsWithin : (spec : Option Bytes) → spec_range size spec ≡ ok r → IsWithin size r
  unfolding spec_range
  spec_range-IsWithin none e = cc
  spec_range-IsWithin (some spec) e = elim (Bool-cases (contains_byte b',' spec || size == 0)) [
    | inl refused ↦ cc (rw refused at e)
    | inr one ↦ one_range-IsWithin (split_once b'-' spec) (ground arith) (rw one at e)
  ]

as_some-eq-ok : (m : Result ApiError ByteRange) {r : ByteRange} → as_some m ≡ ok (some r) → m ≡ ok r
as_some-eq-ok (ok x) e = cc
as_some-eq-ok (err x) e = cc

-- A range that is accepted is not empty and lies within the file, whatever the header.
pub parse_byte_range-IsWithin :
    (header : Header) (size : ℕ) (r : ByteRange)
    → parse_byte_range header size ≡ ok (some r)
    → IsWithin size r
unfolding parse_byte_range
parse_byte_range-IsWithin Header.absent size r e = cc
parse_byte_range-IsWithin Header.not_ascii size r e = cc
parse_byte_range-IsWithin (value raw) size r e =
    spec_range-IsWithin size (strip_prefix (lit "bytes=") raw) (as_some-eq-ok _ e)

contains_byte-IsDigits : (c : ℕ) (s : Bytes) → c < b'0' → IsDigits s → contains_byte c s ≡ false
unfolding contains_byte
contains_byte-IsDigits c [] h k = refl
contains_byte-IsDigits c (x ∷ s) h (p, k) = ground (arith, contains_byte-IsDigits c s h k)

-- A header of two printed numbers, of which either may be missing.
abbrev pub range_text : Bytes → Bytes → Header
range_text start end = value (lit "bytes=" ++ (start ++ b'-' ∷ end))

no_comma :
    (start end : Bytes)
    → IsDigits start
    → IsDigits end
    → contains_byte b',' (start ++ b'-' ∷ end) ≡ false
unfolding contains_byte
no_comma start end s e =
    contains_byte-append b',' start (b'-' ∷ end)
    ∙ ground (
      arith,
      contains_byte-IsDigits b',' start (omega arith) s,
      contains_byte-IsDigits b',' end (omega arith) e,
    )

size_test : (size : ℕ) → 0 < size → (size == 0) ≡ false
size_test size h = ground arith

range_text-splits :
    (size : ℕ) (start end : Bytes)
    → 0 < size
    → IsDigits start
    → IsDigits end
    → parse_byte_range (range_text start end) size ≡ as_some (one_range size (some (start, end)))
unfolding parse_byte_range
range_text-splits size start end h s e =
    rw (strip_prefix-append (lit "bytes=") (start ++ b'-' ∷ end), spec_range)
      (rw (
        no_comma start end s e,
        size_test size h,
        split_once-append b'-' start end (contains_byte-IsDigits b'-' start (omega arith) s),
      ))

-- A printed start is parsed as itself.
from_printed :
    (size start : ℕ) (end : Bytes)
    → start < u64_mod
    → one_range size (some (show_u64 start, end)) ≡ from_range size (some start) end
unfolding one_range
from_printed size start end h =
    go (show_u64 start) (show_u64-ne-nil start) (parse_u64-show_u64 start h)
  where
    go :
        (text : Bytes)
        → text ≢ []
        → parse_u64 text ≡ some start
        → one_range size (some (text, end)) ≡ from_range size (some start) end
    go [] ne p = absurd (ne refl)
    go (c ∷ cs) ne p = ap (λ n. from_range size n end) p

module _ (size : ℕ) (nonempty : 0 < size) where
  -- `bytes=a-b` is the range from a to b, or to the last byte of the file, for printed numbers
  -- that fit in 64 bits with a at most b and within the file.
  parse-closed_range :
      (a b : ℕ)
      → a < size
      → a ≤ b
      → a < u64_mod
      → b < u64_mod
      → parse_byte_range (range_text (show_u64 a) (show_u64 b)) size
        ≡ ok (some (record { start = a; end = min b (size - 1) }))
  parse-closed_range a b inside ordered fits fits' =
      range_text-splits size (show_u64 a) (show_u64 b) nonempty (show_u64-IsDigits a)
        (show_u64-IsDigits b)
      ∙ ap as_some (
          from_printed size a (show_u64 b) fits
          ∙ closed (show_u64 b) (show_u64-ne-nil b) (parse_u64-show_u64 b fits'))
    where
      closed :
          (text : Bytes)
          → text ≢ []
          → parse_u64 text ≡ some b
          → from_range size (some a) text ≡ ok (record { start = a; end = min b (size - 1) })
      closed [] ne p = absurd (ne refl)
      closed (c ∷ cs) ne p = unfold from_range in ground arith

  -- `bytes=a-` is the range from a to the last byte, for a printed number that fits in 64 bits
  -- and is within the file.
  parse-open_range :
      (a : ℕ)
      → a < size
      → a < u64_mod
      → parse_byte_range (range_text (show_u64 a) []) size
        ≡ ok (some (record { start = a; end = size - 1 }))
  parse-open_range a inside fits =
      rw
        (
          range_text-splits size (show_u64 a) [] nonempty (show_u64-IsDigits a) tt,
          from_printed size a [] fits,
        )
        (unfold from_range in ground arith)

  -- `bytes=-n` is the last n bytes of a file that is not empty, or all of it if it is shorter,
  -- for a printed n that is not 0 and fits in 64 bits.
  parse-suffix_range :
      (n : ℕ)
      → 0 < n
      → n < u64_mod
      → parse_byte_range (range_text [] (show_u64 n)) size
        ≡ ok (some (record { start = size - min n size; end = size - 1 }))
  parse-suffix_range n positive fits =
      rw (range_text-splits size [] (show_u64 n) nonempty tt (show_u64-IsDigits n))
        (unfold one_range suffix_range in rw (parse_u64-show_u64 n fits) (ground arith))
