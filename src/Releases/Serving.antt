-- ===== src/Releases/Serving.antt =====
-- A release file is served alike whether it stands in the repository or in Arachne.
use clotho.Prelude.{
  ℕ, ◌+◌, ◌-◌, ◌<◌, ◌≤◌, ◌^◌, ◌≡◌, ◌↔◌, ◌⊎◌, refl, sym, ap, ap₂, ◌∙◌, Bool, true, false, ◌&&◌, not,
  Option, none, some, List, [], ◌∷◌, ◌++◌, map, length, take, drop, slice, concat, take_of_le,
  length-take, length-drop, ◌==◌, if◌then◌else◌, arith, Bool-cases, inl, inr, append-nil,
}
use clotho.Prelude.Bytes.{Bytes, beq, beq_refl, beq_iff}
use clotho.Prelude.Results.{Result, ok, err, ok-injective, ◌>>=◌}
use clotho.LfsPointer.{LfsPointer, not_pointer, parse, encode}
use clotho.LfsPointer.Fields.{IsValid}
use clotho.LfsPointer.RoundTrip.{parse-encode}
use clotho.ApiErrors.{ApiError}
use clotho.Arachne.{Segment, Backend, Message}
use clotho.Arachne.Download.{download_range}
use clotho.Arachne.Download.Segments.{Holds}
use clotho.Arachne.Download.Range.{requested, blocks-le, download_range-Delivered}
use clotho.Prelude.Http.{Header}
use clotho.Releases.{
  ByteRange, Served, len, received_blocks, relay, serve_plain, serve_pointer, serve_parsed, serve,
  parse_byte_range,
}
use clotho.Releases.ByteRanges.{IsWithin, parse_byte_range-IsWithin}

cons-injective :
    {A : Type 0} {x y : A} {xs ys : List A}
    → ◌≡◌ {A = List A} (x ∷ xs) (y ∷ ys)
    → (x ≡ y) × (xs ≡ ys)
cons-injective e = (cc, cc)

received-ok : (blocks : List Bytes) → received_blocks (map ok blocks) ≡ blocks
unfolding received_blocks
received-ok [] = refl
received-ok (b ∷ blocks) = ap (λ bs. b ∷ bs) (received-ok blocks)

tail-inversion :
    (failed : Bool) (xs ys : List Bytes)
    → ◌≡◌ {A = List (Result (Unit {0}) Bytes)}
        (map ok xs ++ (if failed then err tt ∷ [] else []))
        (map ok ys)
    → (failed ≡ false) × (xs ≡ ys)
tail-inversion false [] [] e = (refl, refl)
tail-inversion true [] [] e = cc
tail-inversion false [] (y ∷ ys) e = cc
tail-inversion true [] (y ∷ ys) e = cc
tail-inversion false (x ∷ xs) [] e = cc
tail-inversion true (x ∷ xs) [] e = cc
tail-inversion failed (x ∷ xs) (y ∷ ys) e =
    let (f, same) = tail-inversion failed xs ys (cons-injective e).1 in
    (f, ap₂ ◌∷◌ (ok-injective (cons-injective e).0) same)

module _ (sha256_hex : Bytes → Bytes) (p : LfsPointer) where
  -- If a body ends without an error, its blocks have the length that was asked for, and a whole
  -- payload has the pointer's SHA-256, whatever the storage sends.
  pub relay-checks :
      (offset length_ : ℕ) (stream : List Message) (blocks : List Bytes)
      → relay sha256_hex p offset length_ stream ≡ map ok blocks
      → (length (concat blocks) ≡ length_)
        × (offset ≡ 0 → length_ ≡ p.size → sha256_hex (concat blocks) ≡ p.oid_sha256)
  unfolding relay
  relay-checks offset length_ stream blocks e =
      let (passed, same) = tail-inversion _ (received_blocks stream) blocks e in
      rw (← same) (ground (arith, sha_test), λ first whole. ground (arith, sha_test))
    where
      sha_test :
          (beq (sha256_hex (concat (received_blocks stream))) p.oid_sha256 ≡ true)
          ↔ (sha256_hex (concat (received_blocks stream)) ≡ p.oid_sha256)
      sha_test = beq_iff _ _

  -- A stream of the right length, and of the right SHA-256 where it is the whole payload, passes.
  relay-ok :
      (offset length_ : ℕ) (blocks : List Bytes)
      → length (concat blocks) ≡ length_
      → (offset ≡ 0 → length_ ≡ p.size → sha256_hex (concat blocks) ≡ p.oid_sha256)
      → relay sha256_hex p offset length_ (map ok blocks) ≡ map ok blocks
  unfolding relay
  relay-ok offset length_ blocks long sha =
      rw
        (
          received-ok blocks,
          long_enough,
          whole_enough (Bool-cases ((offset == 0) && (length_ == p.size))),
        )
        (append-nil (map ok blocks))
    where
      long_enough : (length (concat blocks) == length_) ≡ true
      long_enough = ground arith

      whole_enough :
          (((offset == 0) && (length_ == p.size)) ≡ true)
            ⊎ (((offset == 0) && (length_ == p.size)) ≡ false)
          → (((offset == 0) && (length_ == p.size))
              && not (beq (sha256_hex (concat blocks)) p.oid_sha256))
            ≡ false
      whole_enough (inl w) = rw (sha (ground arith) (ground arith), beq_refl p.oid_sha256, w)
      whole_enough (inr w) = rw w

abbrev prepend : Bytes → Option Bytes → Option Bytes
prepend b none = none
prepend b (some rest) = some (b ++ rest)

-- What a client has got of a body: its bytes, or nothing if it ends in an error.
unfoldable pub body_bytes : List (Result (Unit {0}) Bytes) → Option Bytes
body_bytes [] = some []
body_bytes (err e ∷ body) = none
body_bytes (ok b ∷ body) = prepend b (body_bytes body)

-- What a client sees of an answer: status, content range, content length, etag and body.
unfoldable pub client_view : Served → ℕ × Option (ByteRange × ℕ) × ℕ × Bytes × Option Bytes
unfolding body_bytes
client_view s = (s.status, s.content_range, s.content_length, s.etag, body_bytes s.body)

-- The same of what `serve` returns, where it can be an error.
unfoldable pub answer_view :
    Result ApiError Served → Result ApiError (ℕ × Option (ByteRange × ℕ) × ℕ × Bytes × Option Bytes)
unfolding client_view
answer_view (err e) = err e
answer_view (ok s) = ok (client_view s)

body_bytes-ok : (blocks : List Bytes) → body_bytes (map ok blocks) ≡ some (concat blocks)
unfolding body_bytes
body_bytes-ok [] = refl
body_bytes-ok (b ∷ blocks) = rw (body_bytes-ok blocks)

-- A range that `parse_byte_range` returns for a file of `size` bytes, or none.
abbrev IsReadable : ℕ → Option ByteRange → Type 0
IsReadable size none = Unit
IsReadable size (some r) = IsWithin size r

module _ (sha256_hex : Bytes → Bytes) (backend : Backend) {hash : Bytes} {segments : List Segment}
    (p : LfsPointer) (content : Bytes) (known : backend.from_hex p.arachne_hash ≡ some hash)
    (found : backend.get_file_reconstruction_info hash ≡ ok (some segments))
    (held : Holds backend segments content) (fits : length content < 2 ^ 63)
    (sized : p.size ≡ length content) (hashed : sha256_hex content ≡ p.oid_sha256) where
  -- The messages of a download that nobody hangs up on.
  pub storage : (offset length : ℕ) → List Message
  storage offset len =
      (download_range backend p.arachne_hash offset len
        (record { sent = []; patience = length content })).sent

  requested-slice :
      (offset len : ℕ)
      → offset + len ≤ length content
      → (len ≡ 0 → offset ≡ length content)
      → requested offset len content ≡ slice offset (offset + len) content
  requested-slice offset len inside whole = elim (Bool-cases (len == 0)) [
    | inl none_asked ↦ rw none_asked (
        sym (
          take_of_le (offset + len - offset) (drop offset content)
            (ground (arith, length-drop offset content, whole))))
    | inr part ↦ rw part (ap (λ n. take n (drop offset content)) (omega arith))
  ]

  storage-blocks :
      (offset len : ℕ)
      → offset + len ≤ length content
      → (len ≡ 0 → offset ≡ length content)
      → (blocks : List Bytes) × (concat blocks ≡ slice offset (offset + len) content)
        × (storage offset len ≡ map ok blocks)
  unfolding storage
  storage-blocks offset len inside whole =
      let d =
        download_range-Delivered backend content known found held offset len
          (record { sent = []; patience = length content }) (omega arith) (omega arith) in
      let joined = d.joined ∙ requested-slice offset len inside whole in
      (
        d.blocks,
        joined,
        d.received
            ∙ ap (λ bs. map ok bs)
                (take_of_le (length content) d.blocks (
                  omega (
                    arith,
                    blocks-le d.blocks d.bounded,
                    ap length joined,
                    length-take {0} (offset + len - offset) (drop offset content),
                    length-drop {0} offset content,
                  ))),
      )

  relay-storage :
      (offset len : ℕ)
      → offset + len ≤ length content
      → (len ≡ 0 → offset ≡ length content)
      → body_bytes (relay sha256_hex p offset len (storage offset len))
        ≡ some (slice offset (offset + len) content)
  relay-storage offset len inside whole =
      let (blocks, joined, sent) = storage-blocks offset len inside whole in
      rw (
        sent,
        relay-ok sha256_hex p offset len blocks (ap length joined ∙ long)
            (λ first all. ap sha256_hex (joined ∙ everything first all) ∙ hashed),
        body_bytes-ok blocks,
        joined,
      )
    where
      long : length (slice offset (offset + len) content) ≡ len
      long = omega (
        arith,
        length-take {0} (offset + len - offset) (drop offset content),
        length-drop {0} offset content,
      )

      everything : offset ≡ 0 → len ≡ p.size → slice offset (offset + len) content ≡ content
      everything first all = rw first (take_of_le (0 + len - 0) content (omega arith))

  pointer-plain :
      (head_only : Bool) (r : Option ByteRange)
      → IsReadable (length content) r
      → client_view (serve_pointer sha256_hex head_only p r storage)
        ≡ client_view (serve_plain sha256_hex head_only content r)
  unfolding serve_pointer serve_plain len client_view
  pointer-plain true none h = rw (sized, hashed)
  pointer-plain true (some r) h = rw (sized, hashed)
  pointer-plain false none h =
      ap (λ body. (200, none, p.size, p.oid_sha256, body))
        (relay-storage 0 p.size (omega arith) (λ z. omega arith))
      ∙ ap₂ (λ n oid. (200, none, n, oid, some (slice 0 (0 + n) content))) sized (sym hashed)
      ∙ ap (λ b. (200, none, length content, sha256_hex content, some b)) (sym (append-nil _))
  pointer-plain false (some r) h =
      ap (λ body. (206, some (r, p.size), len r, p.oid_sha256, body))
        (relay-storage r.start (len r) (omega (arith, h.ordered, h.inside)) (λ z. omega arith))
      ∙ ap₂
          (λ n oid. (206, some (r, n), len r, oid, some (slice r.start (r.start + len r) content)))
          sized (sym hashed)
      ∙ ap (λ b. (206, some (r, length content), len r, sha256_hex content, some b))
          (sym (append-nil _))

  parsed-alike :
      (head_only : Bool) (range : Result ApiError (Option ByteRange))
      → ((r : Option ByteRange) → range ≡ ok r → IsReadable (length content) r)
      → answer_view (range >>= λ r. ok (serve_pointer sha256_hex head_only p r storage))
        ≡ answer_view (range >>= λ r. ok (serve_plain sha256_hex head_only content r))
  unfolding answer_view
  parsed-alike head_only (err e) h = refl
  parsed-alike head_only (ok r) h = ap ok (pointer-plain head_only r (h r refl))

  range-IsReadable :
      (header : Header) (r : Option ByteRange)
      → parse_byte_range header (length content) ≡ ok r
      → IsReadable (length content) r
  range-IsReadable header none e = tt
  range-IsReadable header (some r) e = parse_byte_range-IsWithin header (length content) r e

  -- A client gets the same status, range, length, etag and bytes of a file, or the same refusal,
  -- whether the repository holds the file or the pointer to it, for `GET` and for `HEAD` and
  -- every `Range` header, if the storage holds the file under the pointer's hash, the pointer is
  -- valid and its size and SHA-256 are the file's, the file has less than 2^63 bytes and is no
  -- pointer file.
  pub serve-alike :
      (head_only : Bool) (header : Header)
      → IsValid p
      → parse content ≡ err not_pointer
      → answer_view (serve sha256_hex head_only header (encode p) (λ q. storage))
        ≡ answer_view (serve sha256_hex head_only header content (λ q offset len. []))
  unfolding serve serve_parsed
  serve-alike head_only header valid plain =
      rw (parse-encode p valid, plain)
        (ap
            (λ n. answer_view (
              parse_byte_range header n >>= λ r.
              ok (serve_pointer sha256_hex head_only p r storage)))
            sized
          ∙ parsed-alike head_only (parse_byte_range header (length content))
              (range-IsReadable header))
