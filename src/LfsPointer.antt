-- ===== src/LfsPointer.antt =====
-- crates/clotho-common/src/lfs_pointer.rs: the pointer file that stands in a repository for a
-- payload that Arachne stores. `Sha256::digest` is the parameter `sha256_hex` of what hashes.
pub mod Fields
pub mod RoundTrip
pub mod Payload
mod Tests
use Prim.Native.String.{String}
use clotho.Prelude.{
  ℕ, Bool, ◌||◌, Option, none, some, List, [], ◌∷◌, ◌++◌, length, all, ◌==◌, not, if◌then◌else◌,
}
use clotho.Prelude.Bytes.{Bytes, lit, beq, strip_prefix, is_hexdigit, to_ascii_lowercase}
use clotho.Prelude.Decimal.{show_u64, parse_u64}
use clotho.Prelude.Lines.{lines}
use clotho.Prelude.Utf8.{is_utf8}
use clotho.Prelude.Results.{Result, ok, err, ◌>>=◌, guard, ok_or}

unfoldable pub lfs_version : Bytes
lfs_version = lit "https://git-lfs.github.com/spec/v1"

pub record LfsPointer : Type 0 where
  pub oid_sha256 : Bytes
  pub size : ℕ
  pub arachne_hash : Bytes

pub data PointerError : Type 0 where
  not_pointer : PointerError
  invalid : String → PointerError

-- The error's text is the argument `message`, which names the field.
unfoldable pub valid_hex : Bytes → String → Result PointerError Bytes
valid_hex value message =
    if not (length value == 64) || not (all is_hexdigit value)
    then err (invalid message)
    else ok (to_ascii_lowercase value)

-- The three variables that the loop of `parse` fills.
pub record Parsed : Type 0 where
  pub oid : Option Bytes
  pub size : Option ℕ
  pub arachne_hash : Option Bytes

set_oid : Parsed → Bytes → Result PointerError Parsed
set_oid found value = do
  oid ← valid_hex value "oid must be 64 hexadecimal characters"
  ok (record found { oid = some oid })

set_size : Parsed → Bytes → Result PointerError Parsed
set_size found value = do
  size ← ok_or (parse_u64 value) (invalid "size must be an integer")
  ok (record found { size = some size })

set_arachne_hash : Parsed → Bytes → Result PointerError Parsed
set_arachne_hash found value = do
  hash ← valid_hex value "Arachne hash must be 64 hexadecimal characters"
  ok (record found { arachne_hash = some hash })

-- One round of the loop.
parse_line : Parsed → Bytes → Result PointerError Parsed
parse_line found line = elim (strip_prefix (lit "oid sha256:") line) [
  | some value ↦ set_oid found value
  | none ↦ elim (strip_prefix (lit "size ") line) [
    | some value ↦ set_size found value
    | none ↦ elim (strip_prefix (lit "x-clotho-arachne-hash ") line) [
      | some value ↦ set_arachne_hash found value
      | none ↦ ok found
    ]
  ]
]

parse_lines : Parsed → List Bytes → Result PointerError Parsed
parse_lines found [] = ok found
parse_lines found (line ∷ rest) = do next ← parse_line found line; parse_lines next rest

abbrev nothing_parsed : Parsed
nothing_parsed = record { oid = none; size = none; arachne_hash = none }

version_line : Bytes
version_line = lit "version " ++ lfs_version

-- The fields that the loop leaves, each of which is required.
complete : Parsed → Result PointerError LfsPointer
complete found = do
  oid ← ok_or found.oid (invalid "missing oid")
  size ← ok_or found.size (invalid "missing size")
  hash ← ok_or found.arachne_hash (invalid "missing Arachne hash")
  ok (record { oid_sha256 = oid; size = size; arachne_hash = hash })

parse_text : List Bytes → Result PointerError LfsPointer
parse_text [] = err not_pointer
parse_text (first ∷ rest) =
    if beq first version_line
    then (do found ← parse_lines nothing_parsed rest; complete found)
    else err not_pointer

unfoldable pub parse : Bytes → Result PointerError LfsPointer
unfolding parse_text parse_lines parse_line set_oid set_size set_arachne_hash complete version_line
parse bytes = if is_utf8 bytes then parse_text (lines bytes) else err not_pointer

unfoldable pub encode : LfsPointer → Bytes
unfolding version_line
encode p =
    version_line
    ++ 10
      ∷ ((lit "oid sha256:" ++ p.oid_sha256)
          ++ 10
            ∷ ((lit "size " ++ show_u64 p.size)
                ++ 10 ∷ ((lit "x-clotho-arachne-hash " ++ p.arachne_hash) ++ 10 ∷ [])))

module _ (sha256_hex : Bytes → Bytes) where
  unfoldable pub for_payload : Bytes → Bytes → LfsPointer
  for_payload payload arachne_hash = record {
    oid_sha256 = sha256_hex payload;
    size = length payload;
    arachne_hash = arachne_hash;
  }

  unfoldable pub verify_payload : LfsPointer → Bytes → Result PointerError (Unit {0})
  verify_payload p payload =
      if not (length payload == p.size)
      then err (invalid "materialized size mismatch")
      else if not (beq (sha256_hex payload) p.oid_sha256)
      then err (invalid "materialized SHA-256 mismatch")
      else ok tt
