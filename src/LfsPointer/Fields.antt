-- ===== src/LfsPointer/Fields.antt =====
-- The fields of a pointer: what a well-formed hash is, and that `parse` returns only such fields.
use clotho.Prelude.{
  ℕ, suc, ◌≤◌, ◌<◌, ◌≡◌, refl, ap, ◌∙◌, subst, ◌⊎◌, inl, inr, true, Option, none, some, List, [],
  ◌∷◌, length, all, All, arith, Bool-cases, Option-cases,
}
use Prim.Native.String.{String}
use clotho.Prelude.Bytes.{
  Bytes, lit, strip_prefix, is_hexdigit, lower_byte, to_ascii_lowercase, beq,
}
use clotho.Prelude.Decimal.{u64_mod, parse_u64, parse_u64-lt}
use clotho.Prelude.Lines.{lines}
use clotho.Prelude.Utf8.{is_utf8}
use clotho.Prelude.Results.{ok, >>=-eq-ok, ok_or, ok-injective, ok_or-eq-ok}
use clotho.LfsPointer.{
  LfsPointer, Parsed, valid_hex, set_oid, set_size, set_arachne_hash, parse_line, parse_lines,
  nothing_parsed, complete, parse_text, version_line, parse,
}

-- A byte that `{:x}` prints.
abbrev pub IsLowerHex : ℕ → Type 0
IsLowerHex c = (b'0' ≤ c) × (c ≤ b'9') ⊎ (b'a' ≤ c) × (c ≤ b'f')

-- 64 lower-case hexadecimal digits.
pub record IsHash (value : Bytes) : Type 0 where
  pub long : length value ≡ 64
  pub hex : All IsLowerHex value

pub record IsValid (p : LfsPointer) : Type 0 where
  pub oid : IsHash p.oid_sha256
  pub size : p.size < u64_mod
  pub arachne_hash : IsHash p.arachne_hash

lower_byte-IsLowerHex : (c : ℕ) → is_hexdigit c ≡ true → IsLowerHex (lower_byte c)
unfolding lower_byte
lower_byte-IsLowerHex c h = ground arith

length-lowercase : (s : Bytes) → length (to_ascii_lowercase s) ≡ length s
unfolding to_ascii_lowercase
length-lowercase [] = refl
length-lowercase (c ∷ s) = ap suc (length-lowercase s)

lowercase-IsLowerHex :
    (s : Bytes) → all is_hexdigit s ≡ true → All IsLowerHex (to_ascii_lowercase s)
unfolding to_ascii_lowercase
lowercase-IsLowerHex [] h = tt
lowercase-IsLowerHex (c ∷ s) h =
    (lower_byte-IsLowerHex c (ground arith), lowercase-IsLowerHex s (ground arith))

valid_hex-eq-ok :
    (s : Bytes) (m : String) {v : Bytes}
    → valid_hex s m ≡ ok v
    → (length s ≡ 64) × (all is_hexdigit s ≡ true) × (v ≡ to_ascii_lowercase s)
unfolding valid_hex
valid_hex-eq-ok s m e = ground arith

valid_hex-IsHash : (s : Bytes) (m : String) {v : Bytes} → valid_hex s m ≡ ok v → IsHash v
valid_hex-IsHash s m e =
    let (long, hex, same) = valid_hex-eq-ok s m e in
    rw same (record { long = length-lowercase s ∙ long; hex = lowercase-IsLowerHex s hex })

-- What holds of the value, if there is one.
abbrev OnSome : {A : Type 0} → (A → Type 0) → Option A → Type 0
OnSome P none = Unit
OnSome P (some a) = P a

record IsSound (found : Parsed) : Type 0 where
  oid : OnSome IsHash found.oid
  size : OnSome (λ n. n < u64_mod) found.size
  arachne_hash : OnSome IsHash found.arachne_hash

module _ (found : Parsed) (h : IsSound found) (value : Bytes) {next : Parsed} where
  set_oid-IsSound : set_oid found value ≡ ok next → IsSound next
  unfolding set_oid
  set_oid-IsSound e =
      let (v, valid, same) = >>=-eq-ok _ _ e in
      subst IsSound (ok-injective same) (record {
        oid = valid_hex-IsHash value _ valid;
        size = h.size;
        arachne_hash = h.arachne_hash;
      })

  set_arachne_hash-IsSound : set_arachne_hash found value ≡ ok next → IsSound next
  unfolding set_arachne_hash
  set_arachne_hash-IsSound e =
      let (v, valid, same) = >>=-eq-ok _ _ e in
      subst IsSound (ok-injective same)
        (record { oid = h.oid; size = h.size; arachne_hash = valid_hex-IsHash value _ valid })

  set_size-IsSound : set_size found value ≡ ok next → IsSound next
  unfolding set_size
  set_size-IsSound e =
      let (n, parsed, same) = >>=-eq-ok _ _ e in
      subst IsSound (ok-injective same) (record {
        oid = h.oid;
        size = parse_u64-lt value (ok_or-eq-ok (parse_u64 value) _ parsed);
        arachne_hash = h.arachne_hash;
      })

parse_line-IsSound :
    (found : Parsed) (line : Bytes) {next : Parsed}
    → IsSound found
    → parse_line found line ≡ ok next
    → IsSound next
unfolding parse_line
parse_line-IsSound found line h e = elim (Option-cases (strip_prefix (lit "oid sha256:") line)) [
  | inr (value, is_oid) ↦ set_oid-IsSound found h value (rw (is_oid, parse_line) at e)
  | inl not_oid ↦ elim (Option-cases (strip_prefix (lit "size ") line)) [
    | inr (value, is_size) ↦ set_size-IsSound found h value (rw (not_oid, is_size, parse_line) at e)
    | inl not_size ↦ elim (Option-cases (strip_prefix (lit "x-clotho-arachne-hash ") line)) [
      | inr (value, is_hash) ↦
          set_arachne_hash-IsSound found h value (rw (not_oid, not_size, is_hash, parse_line) at e)
      | inl not_hash ↦
          subst IsSound (ok-injective (rw (not_oid, not_size, not_hash, parse_line) at e)) h
    ]
  ]
]

parse_lines-IsSound :
    (found : Parsed) (ls : List Bytes) {last : Parsed}
    → IsSound found
    → parse_lines found ls ≡ ok last
    → IsSound last
unfolding parse_lines
parse_lines-IsSound found [] h e = subst IsSound (ok-injective e) h
parse_lines-IsSound found (line ∷ ls) h e =
    let (next, here, later) = >>=-eq-ok _ _ e in
    parse_lines-IsSound next ls (parse_line-IsSound found line h here) later

complete-IsValid :
    (found : Parsed) {p : LfsPointer} → IsSound found → complete found ≡ ok p → IsValid p
unfolding complete
complete-IsValid found h e =
    let (oid, has_oid, e') = >>=-eq-ok (ok_or found.oid _) _ e in
    let (size, has_size, e'') = >>=-eq-ok (ok_or found.size _) _ e' in
    let (hash, has_hash, same) = >>=-eq-ok (ok_or found.arachne_hash _) _ e'' in
    subst IsValid (ok-injective same) (record {
      oid = rw (ok_or-eq-ok found.oid _ has_oid) at h.oid;
      size = rw (ok_or-eq-ok found.size _ has_size) at h.size;
      arachne_hash = rw (ok_or-eq-ok found.arachne_hash _ has_hash) at h.arachne_hash;
    })

parse_text-IsValid : (ls : List Bytes) {p : LfsPointer} → parse_text ls ≡ ok p → IsValid p
unfolding parse_text
parse_text-IsValid [] e = cc
parse_text-IsValid (first ∷ rest) e = elim (Bool-cases (beq first version_line)) [
  | inl same ↦
      let (found, read, done) =
        >>=-eq-ok (parse_lines nothing_parsed rest) complete (rw same at e) in
      complete-IsValid found
        (parse_lines-IsSound nothing_parsed rest (record { oid = tt; size = tt; arachne_hash = tt })
          read)
        done
  | inr other ↦ cc (rw other at e)
]

-- What `parse` returns is valid, whatever the bytes: its hashes are 64 lower-case hexadecimal
-- digits and its size fits in 64 bits.
pub parse-IsValid : (bytes : Bytes) {p : LfsPointer} → parse bytes ≡ ok p → IsValid p
unfolding parse
parse-IsValid bytes e = elim (Bool-cases (is_utf8 bytes)) [
  | inl text ↦ parse_text-IsValid (lines bytes) (rw (text, parse) at e)
  | inr binary ↦ cc (rw (binary, parse) at e)
]
