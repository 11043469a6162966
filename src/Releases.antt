-- ===== src/Releases.antt =====
-- crates/clotho-api-gateway/src/releases.rs: which bytes of a release's file are served.
pub mod ByteRanges
pub mod Serving
mod Tests
use Prim.Native.String
use clotho.Prelude.{
  map, not, ◌&&◌, concat, ℕ, ◌+◌, ◌-◌, Bool, true, false, ◌||◌, Option, none, some, List, [], ◌∷◌,
  ◌++◌, length, slice, min, ltb, leb, ◌==◌, if◌then◌else◌,
}
use clotho.Prelude.Bytes.{Bytes, lit, is_empty, strip_prefix, beq, contains_byte, split_once}
use clotho.Prelude.Decimal.{parse_u64}
use clotho.Prelude.Results.{Result, ok, err, ◌>>=◌}
use clotho.Prelude.Http.{Header, absent, not_ascii, value}
use clotho.ApiErrors.{ApiError, range_not_satisfiable, upstream}
use clotho.LfsPointer.{LfsPointer, PointerError, not_pointer, invalid, parse}
use clotho.Arachne.{Message}

pub record ByteRange : Type 0 where
  pub start : ℕ
  pub end : ℕ

-- `ByteRange::len`
unfoldable pub len : ByteRange → ℕ
len r = r.end - r.start + 1

unfoldable pub range_error : ℕ → ApiError
range_error size = range_not_satisfiable "only one satisfiable byte range is supported" size

-- "-n": the last n bytes.
suffix_range : ℕ → Option ℕ → Result ApiError ByteRange
unfolding range_error
suffix_range size none = err (range_error size)
suffix_range size (some suffix) =
    if ltb 0 suffix
    then ok (record { start = size - min suffix size; end = size - 1 })
    else err (range_error size)

-- The last byte, after a `start` that is in range.
closed_range : (size start : ℕ) → Bytes → Option ℕ → Result ApiError ByteRange
unfolding range_error
closed_range size start [] parsed = ok (record { start = start; end = size - 1 })
closed_range size start (c ∷ cs) none = err (range_error size)
closed_range size start (c ∷ cs) (some end) =
    if leb start end
    then ok (record { start = start; end = min end (size - 1) })
    else err (range_error size)

from_range : ℕ → Option ℕ → Bytes → Result ApiError ByteRange
unfolding closed_range
from_range size none end = err (range_error size)
from_range size (some start) end =
    if ltb start size then closed_range size start end (parse_u64 end) else err (range_error size)

one_range : ℕ → Option (Bytes × Bytes) → Result ApiError ByteRange
unfolding suffix_range from_range
one_range size none = err (range_error size)
one_range size (some ([], end)) = suffix_range size (parse_u64 end)
one_range size (some (c ∷ cs, end)) = from_range size (parse_u64 (c ∷ cs)) end

spec_range : ℕ → Option Bytes → Result ApiError ByteRange
unfolding one_range
spec_range size none = err (range_error size)
spec_range size (some spec) =
    if contains_byte b',' spec || size == 0
    then err (range_error size)
    else one_range size (split_once b'-' spec)

abbrev as_some : Result ApiError ByteRange → Result ApiError (Option ByteRange)
as_some (err e) = err e
as_some (ok r) = ok (some r)

unfoldable pub parse_byte_range : Header → ℕ → Result ApiError (Option ByteRange)
unfolding spec_range range_error
parse_byte_range absent size = ok none
parse_byte_range not_ascii size =
    err (range_not_satisfiable "Range must contain visible ASCII" size)
parse_byte_range (value raw) size = as_some (spec_range size (strip_prefix (lit "bytes=") raw))

-- What `serve_release_file` answers: the `Content-Range` header holds a range and the size, and the
-- body is what the client receives, with an error if the stream ends in one.
pub record Served : Type 0 where
  pub status : ℕ
  pub content_range : Option (ByteRange × ℕ)
  pub content_length : ℕ
  pub etag : Bytes
  pub body : List (Result (Unit {0}) Bytes)

-- The offset and the length that are read.
abbrev pub offset_length : Option ByteRange → ℕ → ℕ × ℕ
unfolding len
offset_length none size = (0, size)
offset_length (some r) size = (r.start, len r)

abbrev status_of : Option ByteRange → ℕ
status_of none = 200
status_of (some r) = 206

abbrev range_header : Option ByteRange → ℕ → Option (ByteRange × ℕ)
range_header none size = none
range_header (some r) size = some (r, size)

respond : Option ByteRange → (size : ℕ) → Bytes → List (Result (Unit {0}) Bytes) → Served
unfolding len
respond r size oid body = record {
  status = status_of r;
  content_range = range_header r size;
  content_length = (offset_length r size).1;
  etag = oid;
  body = body;
}

-- The blocks before the first error of a storage stream.
unfoldable pub received_blocks : List Message → List Bytes
received_blocks [] = []
received_blocks (err e ∷ stream) = []
received_blocks (ok b ∷ stream) = b ∷ received_blocks stream

module _ (sha256_hex : Bytes → Bytes) where
  -- The task of `stream_arachne_release`: it passes the blocks on, and ends in an error if their
  -- number of bytes is not the one asked for, or if a whole payload has another SHA-256.
  unfoldable pub relay :
      LfsPointer → (offset length_ : ℕ) → List Message → List (Result (Unit {0}) Bytes)
  unfolding received_blocks
  relay p offset length_ stream =
      let blocks = received_blocks stream in
      let whole = (offset == 0) && (length_ == p.size) in
      let failed =
        not (length (concat blocks) == length_)
        || (whole && not (beq (sha256_hex (concat blocks)) p.oid_sha256)) in
      map ok blocks ++ (if failed then err tt ∷ [] else [])

  -- `storage` answers `download_file` by the messages of its stream.
  serve_pointer :
      (head_only : Bool)
      → LfsPointer
      → Option ByteRange
      → ((offset length : ℕ) → List Message)
      → Served
  unfolding relay respond
  serve_pointer head_only p r storage =
      let (offset, length_) = offset_length r p.size in
      respond r p.size p.oid_sha256
        (if head_only then [] else relay p offset length_ (storage offset length_))

  serve_plain : (head_only : Bool) → Bytes → Option ByteRange → Served
  unfolding respond
  serve_plain head_only content r =
      let (start, length_) = offset_length r (length content) in
      respond r (length content) (sha256_hex content)
        (if head_only then [] else ok (slice start (start + length_) content) ∷ [])

  serve_parsed :
      Result PointerError LfsPointer
      → (head_only : Bool) → Header
      → Bytes
      → (LfsPointer → (offset length : ℕ) → List Message)
      → Result ApiError Served
  unfolding serve_pointer serve_plain
  serve_parsed (ok p) head_only header content storage = do
    r ← parse_byte_range header p.size
    ok (serve_pointer head_only p r (storage p))
  serve_parsed (err not_pointer) head_only header content storage = do
    r ← parse_byte_range header (length content)
    ok (serve_plain head_only content r)
  serve_parsed (err (invalid m)) head_only header content storage =
      err (upstream (String.◌++◌ "invalid git-lfs pointer: " m))

  -- `serve_release_file` from the file's content in the repository on.
  unfoldable pub serve :
      (head_only : Bool)
      → Header
      → Bytes
      → (LfsPointer → (offset length : ℕ) → List Message)
      → Result ApiError Served
  unfolding serve_parsed
  serve head_only header content storage =
      serve_parsed (parse content) head_only header content storage
