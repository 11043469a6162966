-- ===== src/LfsPointer/RoundTrip.antt =====
-- `parse` reads what `encode` writes.
use clotho.Prelude.{
  ℕ, ◌<◌, ◌≡◌, ◌≢◌, refl, ap, true, some, none, [], ◌∷◌, ◌++◌, all, All, All-append, All-mono,
  arith,
}
use clotho.Prelude.Bytes.{
  Bytes, lit, strip_prefix, strip_prefix-append, is_hexdigit, lower_byte, to_ascii_lowercase,
  beq_refl,
}
use clotho.Prelude.Decimal.{show_u64, show_u64-IsDigits, parse_u64-show_u64}
use clotho.Prelude.Lines.{lines, lines-append, IsLine}
use clotho.Prelude.Utf8.{is_utf8, is_utf8_of_IsAscii, IsAscii}
use Prim.Native.String.{String}
use clotho.Prelude.Results.{ok}
use clotho.LfsPointer.{
  LfsPointer, Parsed, lfs_version, version_line, valid_hex, parse_line, parse_lines, set_oid,
  set_size, set_arachne_hash, nothing_parsed, complete, parse_text, parse, encode,
}
use clotho.LfsPointer.Fields.{IsHash, IsLowerHex, IsValid, parse-IsValid}

-- A byte of a line of ASCII text.
abbrev IsTextByte : ℕ → Type 0
IsTextByte c = (c < 0x80) × (c ≢ 10) × (c ≢ 13)

abbrev IsText : Bytes → Type 0
IsText = All IsTextByte

hash-IsText : (value : Bytes) → IsHash value → IsText value
hash-IsText value h = All-mono IsLowerHex IsTextByte value (λ c k. ground arith) h.hex

size-IsText : (n : ℕ) → IsText (show_u64 n)
size-IsText n = All-mono _ IsTextByte (show_u64 n) (λ c k. omega arith) (show_u64-IsDigits n)

IsText-IsLine : (s : Bytes) → IsText s → IsLine s
IsText-IsLine s = All-mono IsTextByte _ s (λ c k. (k.1, k.2))

IsText-IsAscii : (s : Bytes) → IsText s → IsAscii s
IsText-IsAscii s = All-mono IsTextByte _ s (λ c k. k.0)

abbrev oid_line : LfsPointer → Bytes
oid_line p = lit "oid sha256:" ++ p.oid_sha256

abbrev size_line : LfsPointer → Bytes
size_line p = lit "size " ++ show_u64 p.size

abbrev hash_line : LfsPointer → Bytes
hash_line p = lit "x-clotho-arachne-hash " ++ p.arachne_hash

version_line-IsText : IsText version_line
unfolding version_line lfs_version lit
version_line-IsText = omega arith

oid_line-IsText : (p : LfsPointer) → IsValid p → IsText (oid_line p)
oid_line-IsText p v =
    All-append _ (lit "oid sha256:") _ (unfold lit in omega arith) (hash-IsText _ v.oid)

size_line-IsText : (p : LfsPointer) → IsText (size_line p)
size_line-IsText p = All-append _ (lit "size ") _ (unfold lit in omega arith) (size-IsText p.size)

hash_line-IsText : (p : LfsPointer) → IsValid p → IsText (hash_line p)
hash_line-IsText p v =
    All-append _ (lit "x-clotho-arachne-hash ") _ (unfold lit in omega arith)
      (hash-IsText _ v.arachne_hash)

module _ (p : LfsPointer) (v : IsValid p) where
  encode-IsAscii : IsAscii (encode p)
  unfolding encode
  encode-IsAscii =
      let text = IsText-IsAscii in
      All-append _ version_line _ (text _ version_line-IsText) (
        omega arith,
        All-append _ (oid_line p) _ (text _ (oid_line-IsText p v)) (
          omega arith,
          All-append _ (size_line p) _ (text _ (size_line-IsText p)) (
            omega arith,
            All-append _ (hash_line p) _ (text _ (hash_line-IsText p v)) (omega arith, tt),
          ),
        ),
      )

  lines-encode : lines (encode p) ≡ version_line ∷ oid_line p ∷ size_line p ∷ hash_line p ∷ []
  unfolding encode
  lines-encode =
      rw
        (
          lines-append version_line _ (IsText-IsLine _ version_line-IsText),
          lines-append (oid_line p) _ (IsText-IsLine _ (oid_line-IsText p v)),
          lines-append (size_line p) _ (IsText-IsLine _ (size_line-IsText p)),
          lines-append (hash_line p) _ (IsText-IsLine _ (hash_line-IsText p v)),
        )
        (unfold lines in refl)

lower_byte_of_IsLowerHex : (c : ℕ) → IsLowerHex c → lower_byte c ≡ c
unfolding lower_byte
lower_byte_of_IsLowerHex c h = ground arith

lowercase_of_IsLowerHex : (s : Bytes) → All IsLowerHex s → to_ascii_lowercase s ≡ s
unfolding to_ascii_lowercase
lowercase_of_IsLowerHex [] h = refl
lowercase_of_IsLowerHex (c ∷ s) (k, h) =
    cc (lower_byte_of_IsLowerHex c k, lowercase_of_IsLowerHex s h)

hexdigits_of_IsLowerHex : (s : Bytes) → All IsLowerHex s → all is_hexdigit s ≡ true
hexdigits_of_IsLowerHex [] h = refl
hexdigits_of_IsLowerHex (c ∷ s) (k, h) = ground (arith, hexdigits_of_IsLowerHex s h)

valid_hex_of_IsHash : (s : Bytes) (m : String) → IsHash s → valid_hex s m ≡ ok s
unfolding valid_hex
valid_hex_of_IsHash s m h =
    rw (h.long, hexdigits_of_IsLowerHex s h.hex) (ap ok (lowercase_of_IsLowerHex s h.hex))

size_is_not_oid : (n : ℕ) → strip_prefix (lit "oid sha256:") (lit "size " ++ show_u64 n) ≡ none
unfolding lit strip_prefix
size_is_not_oid n = refl

module _ (s : Bytes) where
  hash_is_not_oid : strip_prefix (lit "oid sha256:") (lit "x-clotho-arachne-hash " ++ s) ≡ none
  unfolding lit strip_prefix
  hash_is_not_oid = refl

  hash_is_not_size : strip_prefix (lit "size ") (lit "x-clotho-arachne-hash " ++ s) ≡ none
  unfolding lit strip_prefix
  hash_is_not_size = refl

parse_of_text : (bytes : Bytes) → is_utf8 bytes ≡ true → parse bytes ≡ parse_text (lines bytes)
unfolding parse
parse_of_text bytes h = rw h

module _ (found : Parsed) (p : LfsPointer) (v : IsValid p) where
  parse_line-oid : parse_line found (oid_line p) ≡ ok (record found { oid = some p.oid_sha256 })
  unfolding parse_line set_oid
  parse_line-oid =
      rw (strip_prefix-append (lit "oid sha256:") p.oid_sha256, parse_line)
        (rw (valid_hex_of_IsHash p.oid_sha256 "oid must be 64 hexadecimal characters" v.oid))

  parse_line-size : parse_line found (size_line p) ≡ ok (record found { size = some p.size })
  unfolding parse_line set_size
  parse_line-size =
      rw (size_is_not_oid p.size, strip_prefix-append (lit "size ") (show_u64 p.size), parse_line)
        (rw (parse_u64-show_u64 p.size v.size))

  parse_line-hash :
      parse_line found (hash_line p) ≡ ok (record found { arachne_hash = some p.arachne_hash })
  unfolding parse_line set_arachne_hash
  parse_line-hash =
      rw
        (
          hash_is_not_oid p.arachne_hash,
          hash_is_not_size p.arachne_hash,
          strip_prefix-append (lit "x-clotho-arachne-hash ") p.arachne_hash,
          parse_line,
        )
        (rw (
          valid_hex_of_IsHash p.arachne_hash "Arachne hash must be 64 hexadecimal characters"
            v.arachne_hash))

parse_text-lines :
    (p : LfsPointer)
    → IsValid p
    → parse_text (version_line ∷ oid_line p ∷ size_line p ∷ hash_line p ∷ []) ≡ ok p
unfolding parse_text parse_lines complete
parse_text-lines p v = rw (beq_refl version_line) (
    rw (parse_line-oid nothing_parsed p v) (
      rw (parse_line-size (record nothing_parsed { oid = some p.oid_sha256 }) p v) (
        rw (
          parse_line-hash
            (record { oid = some p.oid_sha256; size = some p.size; arachne_hash = none }) p v))))

-- Parsing an encoded pointer gives it back, if its hashes are 64 lower-case hexadecimal digits
-- and its size fits in 64 bits.
pub parse-encode : (p : LfsPointer) → IsValid p → parse (encode p) ≡ ok p
parse-encode p v =
    rw
      (
        parse_of_text (encode p) (is_utf8_of_IsAscii (encode p) (encode-IsAscii p v)),
        lines-encode p v,
      )
      (parse_text-lines p v)

-- What `parse` returns is a fixed point: written and read again it is the same pointer.
parse-encode-parse : (bytes : Bytes) (p : LfsPointer) → parse bytes ≡ ok p → parse (encode p) ≡ ok p
parse-encode-parse bytes p e = parse-encode p (parse-IsValid bytes e)
