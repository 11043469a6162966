-- ===== src/Releases/Tests.antt =====
-- Ranges of a release's file at concrete inputs.
use clotho.Prelude.{
  ℕ, ◌≡◌, refl, false, some, List, [], ◌∷◌, ◌++◌, slice, arith, length, concat, map,
}
use clotho.Prelude.Bytes.{Bytes, lit, text_code, contains_byte, split_once}
use clotho.Prelude.Decimal.{parse_u64}
use clotho.Prelude.Lines.{lines}
use clotho.Prelude.Results.{ok, err}
use clotho.Prelude.Utf8.{is_utf8}
use clotho.LfsPointer.{LfsPointer, not_pointer, parse, encode}
use clotho.LfsPointer.Fields.{IsHash, IsValid}
use clotho.Arachne.{Segment, Backend}
use clotho.Arachne.Download.{load_xorb}
use clotho.Arachne.Download.Segments.{Holds, segment_data}
use clotho.Prelude.Http.{value}
use clotho.Releases.{range_error, parse_byte_range, relay, serve, received_blocks}
use clotho.Releases.ByteRanges.{IsWithin, parse_byte_range-IsWithin}
use clotho.Releases.Serving.{storage, answer_view, serve-alike, relay-checks}

range_code : Unit {0}
unfolding parse_byte_range range_error parse_u64 contains_byte split_once text_code
range_code = tt

first_two : parse_byte_range (value (lit "bytes=0-1")) 5 ≡ ok (some (record { start = 0; end = 1 }))
unfolding range_code
first_two = refl

two_ranges : parse_byte_range (value (lit "bytes=0-1,3-4")) 5 ≡ err (range_error 5)
unfolding range_code
two_ranges = refl

past_the_end : parse_byte_range (value (lit "bytes=5-")) 5 ≡ err (range_error 5)
unfolding range_code
past_the_end = refl

long_suffix :
    parse_byte_range (value (lit "bytes=-9")) 5 ≡ ok (some (record { start = 0; end = 4 }))
unfolding range_code
long_suffix = refl

parse_byte_range-IsWithin_example : IsWithin 5 (record { start = 0; end = 1 })
parse_byte_range-IsWithin_example =
    parse_byte_range-IsWithin (value (lit "bytes=0-1")) 5 (record { start = 0; end = 1 }) first_two

-- The xorb is its own object, and a chunk is a byte.
abbrev segments : List Segment
segments =
    record {
      xorb_hash = 7 ∷ [];
      chunk_index_start = 1;
      chunk_index_end = 4;
      unpacked_segment_bytes = 3;
    }
    ∷ []

abbrev store : Backend
store = record {
  Object = Bytes;
  from_hex = λ h. some h;
  get_file_reconstruction_info = λ h. ok (some segments);
  get = λ h. ok (10 ∷ 11 ∷ 12 ∷ 13 ∷ []);
  deserialize = λ b. ok b;
  get_bytes_by_chunk_range = λ object b from to. ok (slice from to object);
}

abbrev content : Bytes
content = 11 ∷ 12 ∷ 13 ∷ []

content-Holds : Holds store segments content
unfolding segment_data load_xorb
content-Holds = (content, [], refl, refl, refl, refl)

abbrev sixteen : Bytes
unfolding lit
sixteen = lit "0123456789abcdef"

abbrev some_hash : Bytes
some_hash = sixteen ++ (sixteen ++ (sixteen ++ sixteen))

some_hash-IsHash : IsHash some_hash
unfolding lit
some_hash-IsHash = record { long = refl; hex = ground arith }

abbrev pointer : LfsPointer
pointer = record { oid_sha256 = some_hash; size = 3; arachne_hash = some_hash }

abbrev constant_hash : Bytes → Bytes
constant_hash d = some_hash

pointer-IsValid : IsValid pointer
pointer-IsValid = record {
  oid = some_hash-IsHash;
  size = omega arith;
  arachne_hash = some_hash-IsHash;
}

content-not_pointer : parse content ≡ err not_pointer
unfolding parse is_utf8 lines text_code
content-not_pointer = refl

serve-alike_example :
    answer_view (
      serve constant_hash false (value (lit "bytes=1-")) (encode pointer) (λ q.
        storage constant_hash store pointer content refl refl content-Holds
          (omega arith)
          refl
          refl))
    ≡ answer_view (serve constant_hash false (value (lit "bytes=1-")) content (λ q offset len. []))
serve-alike_example =
    serve-alike constant_hash store pointer content refl refl content-Holds (omega arith) refl refl
      false (value (lit "bytes=1-")) pointer-IsValid content-not_pointer

passes :
    relay constant_hash pointer 1 2 (ok (11 ∷ []) ∷ ok (12 ∷ []) ∷ [])
    ≡ map ok ((11 ∷ []) ∷ (12 ∷ []) ∷ [])
unfolding relay received_blocks text_code
passes = refl

relay-checks_example :
    (length (concat {A = ℕ} ((11 ∷ []) ∷ (12 ∷ []) ∷ [])) ≡ 2)
    × (◌≡◌ {A = ℕ} 1 0
        → 2 ≡ pointer.size
        → constant_hash (concat ((11 ∷ []) ∷ (12 ∷ []) ∷ [])) ≡ pointer.oid_sha256)
relay-checks_example =
    relay-checks constant_hash pointer 1 2 (ok (11 ∷ []) ∷ ok (12 ∷ []) ∷ [])
      ((11 ∷ []) ∷ (12 ∷ []) ∷ []) passes

short_stream : relay constant_hash pointer 0 2 (ok (11 ∷ []) ∷ []) ≡ ok (11 ∷ []) ∷ err tt ∷ []
unfolding relay received_blocks text_code
short_stream = refl
