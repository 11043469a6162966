-- ===== src/LfsPointer/Tests.antt =====
-- Pointer files read and written at concrete inputs.
use clotho.Prelude.{◌≡◌, ◌↔◌, refl, ℕ, [], ◌∷◌, ◌++◌, length, arith}
use clotho.Prelude.Bytes.{Bytes, lit, text_code}
use clotho.Prelude.Decimal.{parse_u64}
use clotho.Prelude.Results.{ok, err, ◌>>=◌}
use clotho.Prelude.Utf8.{is_utf8}
use clotho.Prelude.Lines.{lines}
use clotho.LfsPointer.{
  LfsPointer, valid_hex, not_pointer, invalid, parse, encode, lfs_version, for_payload,
  verify_payload,
}
use clotho.LfsPointer.Fields.{IsHash, IsValid, parse-IsValid}
use clotho.LfsPointer.RoundTrip.{parse-encode}
use clotho.LfsPointer.Payload.{verify-parse-encode}

pointer_code : Unit {0}
unfolding parse lfs_version valid_hex is_utf8 lines parse_u64 text_code
pointer_code = tt

abbrev sixteen : Bytes
unfolding lit
sixteen = lit "0123456789abcdef"

abbrev some_hash : Bytes
some_hash = sixteen ++ (sixteen ++ (sixteen ++ sixteen))

some_hash-IsHash : IsHash some_hash
unfolding lit
some_hash-IsHash = record { long = refl; hex = ground arith }

abbrev pointer : LfsPointer
pointer = record { oid_sha256 = some_hash; size = 5; arachne_hash = some_hash }

pointer-IsValid : IsValid pointer
pointer-IsValid = record {
  oid = some_hash-IsHash;
  size = omega arith;
  arachne_hash = some_hash-IsHash;
}

parse-encode_example : parse (encode pointer) ≡ ok pointer
parse-encode_example = parse-encode pointer pointer-IsValid

parse-IsValid_example : IsValid pointer
parse-IsValid_example = parse-IsValid (encode pointer) (parse-encode pointer pointer-IsValid)

abbrev constant_hash : Bytes → Bytes
constant_hash d = some_hash

verify-parse-encode_example :
    ((parse (encode (for_payload constant_hash (1 ∷ 2 ∷ []) some_hash)) >>= λ p.
    verify_payload constant_hash p (3 ∷ 4 ∷ []))
      ≡ ok tt)
    ↔ ((length {A = ℕ} (3 ∷ 4 ∷ []) ≡ length {A = ℕ} (1 ∷ 2 ∷ [])) × (some_hash ≡ some_hash))
verify-parse-encode_example =
    verify-parse-encode constant_hash (1 ∷ 2 ∷ []) (3 ∷ 4 ∷ []) some_hash (λ d. some_hash-IsHash)
      some_hash-IsHash (omega arith)

-- A file in any order of lines, with "\r\n" ends, upper-case digits and an unknown line.
reordered :
    parse (
      lit "version "
      ++ lfs_version
      ++ 13 ∷ 10 ∷ []
      ++ lit "size +5\n"
      ++ lit "note x\n"
      ++ lit "x-clotho-arachne-hash "
      ++ some_hash
      ++ 10 ∷ []
      ++ lit "oid sha256:"
      ++ lit "0123456789ABCDEF"
      ++ sixteen
      ++ sixteen
      ++ sixteen)
    ≡ ok pointer
unfolding pointer_code
reordered = refl

plain_file : parse (lit "hello") ≡ err not_pointer
unfolding pointer_code
plain_file = refl

size_overflow :
    parse (lit "version " ++ lfs_version ++ lit "\nsize 18446744073709551616")
    ≡ err (invalid "size must be an integer")
unfolding pointer_code
size_overflow = refl
