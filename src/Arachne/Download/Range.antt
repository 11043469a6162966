-- ===== src/Arachne/Download/Range.antt =====
-- What the receiver of `download_range` and of `download` gets.
use clotho.Prelude.{
  ℕ, zero, suc, ◌+◌, ◌-◌, ◌<◌, ◌≤◌, ◌^◌, ◌≡◌, ◌⊎◌, ◌↔◌, refl, sym, ap, ◌∙◌, true, false, ◌||◌, none,
  some, List, [], ◌∷◌, ◌++◌, map, length, length-append, take, drop, slice, concat, take_of_le,
  length-drop, All, ltb, leb, leb→le, ◌==◌, if◌then◌else◌, arith, Bool-cases, inl, inr, append-nil,
}
use clotho.Prelude.Bytes.{Bytes}
use clotho.Prelude.Results.{ok, err}
use clotho.Arachne.{Segment, Backend, Channel, Message, EngineError, send, file_size, invalid_range}
use clotho.Arachne.Download.{
  download_inner, download_file, download_range, download, range_end, report, or_unsent,
  download_segments,
}
use clotho.Arachne.Download.Blocks.{IsBlock, sent-deliver, report-deliver}
use clotho.Arachne.Download.Segments.{Holds, file_size-Holds, download_segments-deliver}

-- `length` bytes from `offset` on, or all of them if `length` is 0, as far as the content goes.
abbrev pub requested : (offset length : ℕ) → Bytes → Bytes
requested offset len content =
    if len == 0 then drop offset content else take len (drop offset content)

-- The receiver of `after` has got blocks that join to `expected`, as many as it took.
pub record Delivered (before after : Channel) (expected : Bytes) : Type 0 where
  pub blocks : List Bytes
  pub bounded : All IsBlock blocks
  pub joined : concat blocks ≡ expected
  pub received : after.sent ≡ before.sent ++ map ok (take before.patience blocks)

slice-requested :
    (offset len : ℕ) (content : Bytes)
    → len + offset < 2 ^ 64
    → slice offset (range_end offset len (length content)) content ≡ requested offset len content
slice-requested offset len content fits = elim (Bool-cases (len == 0)) [
  | inl whole ↦ rw (whole) (
      take_of_le (length content - offset) (drop offset content)
        (omega (arith, length-drop offset content)))
  | inr part ↦ rw part (elim (Bool-cases (leb (offset + len) (length content))) [
    | inl inside ↦ ap (λ n. take n (drop offset content)) (omega (arith, leb→le _ _ inside))
    | inr beyond ↦
        take_of_le _ (drop offset content) (ground (arith, length-drop offset content))
        ∙ sym (take_of_le len (drop offset content) (ground (arith, length-drop offset content)))
  ])
]

range_end-le :
    (offset len : ℕ) (content : Bytes)
    → offset ≤ length content
    → len + offset < 2 ^ 64
    → offset ≤ range_end offset len (length content)
range_end-le offset len content h k = ground arith

sent-report_within :
    (patience : ℕ) (m : Message) (sent : List Message)
    → (let ch : Channel = record { sent = sent; patience = patience } in
        (or_unsent (send m ch) ch).sent)
      ≡ sent ++ take patience (m ∷ [])
unfolding send
sent-report_within zero m sent = sym (append-nil sent)
sent-report_within (suc zero) m sent = refl
sent-report_within (suc (suc n)) m sent = refl

sent-report :
    (m : Message) (ch : Channel)
    → (or_unsent (send m ch) ch).sent ≡ ch.sent ++ take ch.patience (m ∷ [])
sent-report m ch = sent-report_within ch.patience m ch.sent

pub blocks-le : (blocks : List Bytes) → All IsBlock blocks → length blocks ≤ length (concat blocks)
blocks-le [] h = omega arith
blocks-le (b ∷ blocks) (p, h) =
    omega (arith, length-append {0} b (concat blocks), blocks-le blocks h)

append-cancel : {A : Type 0} (xs ys zs : List A) → xs ++ ys ≡ xs ++ zs → ys ≡ zs
append-cancel [] ys zs h = h
append-cancel (x ∷ xs) ys zs h = append-cancel xs ys zs cc

take_one : {A : Type 0} {x : A} (n : ℕ) → 0 < n → take n (x ∷ []) ≡ x ∷ []
take_one zero h = ground arith
take_one (suc zero) h = refl
take_one (suc (suc n)) h = refl

no_error :
    (sent : List Message) (blocks : List Bytes) (e : EngineError)
    → ¬ (sent ++ err e ∷ [] ≡ sent ++ map ok blocks)
no_error sent [] e h = cc (append-cancel sent (err e ∷ []) [] h)
no_error sent (b ∷ blocks) e h = cc (append-cancel sent (err e ∷ []) (ok b ∷ map ok blocks) h)

only_error :
    (sent : List Message) (n : ℕ) {e e' : EngineError}
    → 0 < n
    → sent ++ err e ∷ [] ≡ sent ++ take n (err e' ∷ [])
    → e ≡ e'
only_error sent n h k = cc (append-cancel sent _ _ k, take_one n h)

range_cases :
    (total offset len : ℕ)
    → ((total < offset) ⊎ (2 ^ 64 ≤ len + offset)) ⊎ ((offset ≤ total) × (len + offset < 2 ^ 64))
range_cases total offset len = elim (Bool-cases (ltb total offset || leb (2 ^ 64) (len + offset))) [
  | inl outside ↦ inl (ground arith)
  | inr inside ↦ inr (ground arith)
]

module _ (backend : Backend) {file_hash hash : Bytes} {segments : List Segment} (content : Bytes)
    (known : backend.from_hex file_hash ≡ some hash)
    (found : backend.get_file_reconstruction_info hash ≡ ok (some segments))
    (held : Holds backend segments content) where
  download_inner-eq :
      (offset len : ℕ) (ch : Channel)
      → download_inner backend file_hash offset len ch
        ≡ download_file backend offset len segments ch
  unfolding download_inner
  download_inner-eq offset len ch = rw (known, found)

  in_range :
      (offset len : ℕ)
      → offset ≤ length content
      → len + offset < 2 ^ 64
      → (ltb (file_size segments) offset || leb (2 ^ 64) (len + offset)) ≡ false
  in_range offset len a b = ground (arith, file_size-Holds backend segments content held)

  download_file-runs :
      (offset len : ℕ) (ch : Channel)
      → offset ≤ length content
      → len + offset < 2 ^ 64
      → download_file backend offset len segments ch
        ≡ download_segments backend offset
            (range_end offset len (length content))
            segments
            0
            none
            ch
  unfolding download_file
  download_file-runs offset len ch inside fits = rw (in_range offset len inside fits) (
      ap (λ n. download_segments backend offset (range_end offset len n) segments 0 none ch)
        (file_size-Holds backend segments content held))

  -- What `download_range` sends joins to exactly the bytes that were asked for, in blocks of at
  -- most 2 MiB and none of them empty, if the store holds the content, the offset is within it
  -- and offset plus length fit in 64 bits; the receiver has got as many of the blocks as it took.
  pub download_range-Delivered :
      (offset len : ℕ) (ch : Channel)
      → offset ≤ length content
      → len + offset < 2 ^ 64
      → Delivered ch (download_range backend file_hash offset len ch) (requested offset len content)
  unfolding download_range
  download_range-Delivered offset len ch inside fits =
      let (blocks, bounded, joined, runs) =
        download_segments-deliver backend offset (range_end offset len (length content))
          (range_end-le offset len content inside fits) segments content held in
      record {
        blocks = blocks;
        bounded = bounded;
        joined = joined ∙ slice-requested offset len content fits;
        received =
            ap (λ e. (report e).sent)
              (download_inner-eq offset len ch
                ∙ download_file-runs offset len ch inside fits
                ∙ runs ch)
            ∙ ap (λ c. c.sent) (report-deliver blocks ch)
            ∙ sent-deliver blocks ch;
      }

  out_of_range :
      (offset len : ℕ)
      → (length content < offset) ⊎ (2 ^ 64 ≤ len + offset)
      → (ltb (file_size segments) offset || leb (2 ^ 64) (len + offset)) ≡ true
  out_of_range offset len h = ground (arith, file_size-Holds backend segments content held)

  invalid_sent :
      (offset len : ℕ) (ch : Channel)
      → (length content < offset) ⊎ (2 ^ 64 ≤ len + offset)
      → (download_range backend file_hash offset len ch).sent
        ≡ ch.sent ++ take ch.patience (err (invalid_range offset len (length content)) ∷ [])
  unfolding download_range
  invalid_sent offset len ch outside =
      ap (λ e. (report e).sent) (download_inner-eq offset len ch)
      ∙ (unfold download_file in
          rw (out_of_range offset len outside, file_size-Holds backend segments content held)
            (sent-report (err (invalid_range offset len (length content))) ch))

  -- A receiver that takes a message gets an error alone exactly if the range starts after the end
  -- of the file, or its offset and length do not add up in 64 bits, and the error is then the one
  -- of an invalid range.
  download_range-invalid_iff :
      (offset len : ℕ) (ch : Channel) (e : EngineError)
      → 0 < ch.patience
      → ((download_range backend file_hash offset len ch).sent ≡ ch.sent ++ err e ∷ []) ↔ (
          ((length content < offset) ⊎ (2 ^ 64 ≤ len + offset))
          × (e ≡ invalid_range offset len (length content)))
  download_range-invalid_iff offset len ch e takes = (
    λ h. elim (range_cases (length content) offset len) [
      | inl outside ↦ (
        outside,
        only_error ch.sent ch.patience takes (sym h ∙ invalid_sent offset len ch outside),
      )
      | inr (inside, fits) ↦
          let d = download_range-Delivered offset len ch inside fits in
          absurd (no_error ch.sent (take ch.patience d.blocks) e (sym h ∙ d.received))
    ],
    λ (outside, same).
        invalid_sent offset len ch outside
        ∙ ap (λ x. ch.sent ++ x) (take_one ch.patience takes ∙ ap (λ x. err x ∷ []) (sym same)),
  )

  -- A whole download of a file that the store holds sends blocks that join to its content and no
  -- error, to a receiver that takes as many messages as the content has bytes.
  pub download_complete :
      (ch : Channel)
      → length content ≤ ch.patience
      → (blocks : List Bytes) × (concat blocks ≡ content)
        × ((download backend file_hash ch).sent ≡ ch.sent ++ map ok blocks)
  unfolding download
  download_complete ch stays =
      let d = download_range-Delivered 0 0 ch (omega arith) (omega arith) in
      (
        d.blocks,
        d.joined,
        d.received
            ∙ ap (λ bs. ch.sent ++ map ok bs)
                (take_of_le ch.patience d.blocks
                  (omega (arith, blocks-le d.blocks d.bounded, ap length d.joined))),
      )
