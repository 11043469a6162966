-- ===== src/Arachne/Download/Segments.antt =====
-- The loop over the segments delivers the requested slice of what the segments hold.
use clotho.Prelude.{
  slice_before, slice_empty, slice_past_end, concat-append, length-append, ap₂, fun_ext, ℕ, ◌+◌,
  ◌-◌, ◌≤◌, ◌≡◌, refl, sym, ap, ◌∙◌, subst, true, false, none, some, List, [], ◌∷◌, ◌++◌, min,
  length, slice, concat, All, All-append, slice-append, leb, ◌&&◌, leb→le, arith, Bool-cases, inl,
  inr,
}
use clotho.Prelude.Bytes.{Bytes, beq, beq-eq}
use clotho.Prelude.Results.{Result, ok, ◌>>=◌, >>=-eq-ok}
use clotho.Arachne.{EngineError, Segment, Backend, Channel, file_size}
use clotho.Arachne.Download.{
  Cache, unless_hung_up, load_xorb, fetch, with_xorb, send_part, download_segments,
}
use clotho.Arachne.Download.Blocks.{
  send_all, deliver, IsBlock, blocks_of, send_blocks-eq-send_all, concat-blocks_of,
  blocks_of-IsBlock, deliver-append,
}

module _ (backend : Backend) where
  open backend use {Object, get_bytes_by_chunk_range}

  -- The bytes of a segment in the store.
  unfoldable pub segment_data : Segment → Result EngineError Bytes
  segment_data s = do
    loaded ← load_xorb backend s.xorb_hash
    get_bytes_by_chunk_range loaded.0 loaded.1 s.chunk_index_start s.chunk_index_end

  -- The segments hold the content: each can be read, and is as long as its record says.
  abbrev pub Holds : List Segment → Bytes → Type 0
  Holds [] content = content ≡ []
  Holds (s ∷ segments) content =
      (part : Bytes) × (rest : Bytes) × (segment_data s ≡ ok part)
      × (length part ≡ s.unpacked_segment_bytes)
      × (content ≡ part ++ rest)
      × Holds segments rest

  -- What is cached is what the store has under its hash.
  abbrev IsFresh : Cache backend → Type 0
  IsFresh none = Unit
  IsFresh (some (hash, object, bytes)) = load_xorb backend hash ≡ ok (object, bytes)

  fetch-eq-load_xorb :
      (cached : Cache backend) (s : Segment)
      → IsFresh cached
      → fetch backend cached s ≡ load_xorb backend s.xorb_hash
  unfolding fetch
  fetch-eq-load_xorb none s h = refl
  fetch-eq-load_xorb (some (hash, object, bytes)) s h = elim (Bool-cases (beq hash s.xorb_hash)) [
    | inl same ↦ rw same (sym h ∙ ap (load_xorb backend) (beq-eq hash s.xorb_hash same))
    | inr other ↦ rw other
  ]

  pub file_size-Holds :
      (segments : List Segment) (content : Bytes)
      → Holds segments content
      → file_size segments ≡ length content
  unfolding file_size
  file_size-Holds [] content h = rw h
  file_size-Holds (s ∷ segments) content (part, rest, read, long, same, h) =
      rw same (omega (arith, length-append {0} part rest, file_size-Holds segments rest h))

  module _ (offset range_end : ℕ) (ordered : offset ≤ range_end) where
    -- What the loop has yet to do, from the segment that starts at `start`.
    record Delivers (segments : List Segment) (content : Bytes) (start : ℕ) (cached : Cache backend)
        : Type 0 where
      blocks : List Bytes
      bounded : All IsBlock blocks
      joined : concat blocks ≡ slice (offset - start) (range_end - start) content
      runs :
          (ch : Channel)
          → download_segments backend offset range_end segments start cached ch ≡ deliver blocks ch

    module _ (s : Segment) (segments : List Segment) (part rest : Bytes) (start : ℕ)
        (cached : Cache backend) (long : length part ≡ s.unpacked_segment_bytes) where
      abbrev end : ℕ
      end = start + s.unpacked_segment_bytes

      -- The requested slice is that of this segment and that of the rest.
      joined-cons :
          slice (offset - start) (range_end - start) (part ++ rest)
          ≡ slice (offset - start) (min range_end end - start) part
            ++ slice (offset - end) (range_end - end) rest
      joined-cons =
          slice-append (offset - start) (range_end - start) part rest
          ∙ ap₂ ◌++◌ clip (ap₂ (λ a b. slice a b rest) (omega arith) (omega arith))
        where
          clip :
              slice (offset - start) (range_end - start) part
              ≡ slice (offset - start) (min range_end end - start) part
          clip = elim (Bool-cases (leb end range_end)) [
            | inl past ↦
                slice_past_end (offset - start) (range_end - start) part
                  (omega (arith, leb→le end range_end past))
                ∙ ap (λ k. slice (offset - start) k part) (omega (arith, leb→le end range_end past))
            | inr inside ↦ ap (λ k. slice (offset - start) k part) (ground arith)
          ]

      Delivers-skip :
          leb end offset ≡ true
          → Delivers segments rest end cached
          → Delivers (s ∷ segments) (part ++ rest) start cached
      unfolding download_segments
      Delivers-skip skip d = record {
        blocks = d.blocks;
        bounded = d.bounded;
        joined =
            d.joined
            ∙ sym (
                joined-cons
                ∙ ap (λ xs. xs ++ slice (offset - end) (range_end - end) rest)
                    (slice_before _ _ part (omega (arith, leb→le end offset skip))));
        runs = λ ch. rw skip (d.runs ch);
      }

      Delivers-stop :
          leb end offset ≡ false
          → leb range_end start ≡ true
          → Delivers (s ∷ segments) (part ++ rest) start cached
      unfolding download_segments
      Delivers-stop on stop = record {
        blocks = [];
        bounded = tt;
        joined = sym (
            slice_empty (offset - start) (range_end - start) (part ++ rest)
              (omega (arith, leb→le range_end start stop)));
        runs = λ ch. rw (on, stop) (unfold deliver in refl);
      }

      abbrev piece : Bytes
      piece = slice (offset - start) (min range_end end - start) part

      in_bounds :
          leb end offset ≡ false
          → leb range_end start ≡ false
          → (leb (offset - start) (min range_end end - start)
              && leb (min range_end end - start) (length part))
            ≡ true
      in_bounds on more = ground arith

      Delivers-read :
          (loaded : Object × Bytes)
          → leb end offset ≡ false
          → leb range_end start ≡ false
          → fetch backend cached s ≡ ok loaded
          → get_bytes_by_chunk_range loaded.0 loaded.1 s.chunk_index_start s.chunk_index_end
            ≡ ok part
          → Delivers segments rest end (some (s.xorb_hash, loaded.0, loaded.1))
          → Delivers (s ∷ segments) (part ++ rest) start cached
      unfolding download_segments with_xorb send_part
      Delivers-read loaded on more fetched read d = record {
        blocks = blocks_of (length piece) piece 0 ++ d.blocks;
        bounded =
            All-append IsBlock _ d.blocks (blocks_of-IsBlock (length piece) piece 0) d.bounded;
        joined =
            concat-append (blocks_of (length piece) piece 0) d.blocks
            ∙ ap₂ ◌++◌ (concat-blocks_of (length piece) piece 0 (omega arith)) d.joined
            ∙ sym joined-cons;
        runs = λ ch.
            rw
              (
                on,
                more,
                fetched,
                read,
                in_bounds on more,
                send_blocks-eq-send_all (length piece) piece 0 ch,
              )
              (ap (unless_hung_up (send_all (blocks_of (length piece) piece 0) ch)) (fun_ext d.runs)
                ∙ deliver-append (blocks_of (length piece) piece 0) d.blocks ch);
      }

    download_segments-Delivers :
        (segments : List Segment) (content : Bytes) (start : ℕ) (cached : Cache backend)
        → IsFresh cached
        → Holds segments content
        → Delivers segments content start cached
    unfolding segment_data
    download_segments-Delivers [] content start cached fresh h = record {
      blocks = [];
      bounded = tt;
      joined = rw h (sym (slice_before (offset - start) (range_end - start) [] (omega arith)));
      runs = λ ch. unfold download_segments deliver in refl;
    }
    download_segments-Delivers (s ∷ segments) content start cached fresh
          (part, rest, read, long, same, h) =
        let (loaded, found, cut) = >>=-eq-ok (load_xorb backend s.xorb_hash) _ read in
        let end : ℕ = start + s.unpacked_segment_bytes in
        subst (λ c. Delivers (s ∷ segments) c start cached) (sym same)
          (elim (Bool-cases (leb end offset)) [
            | inl skip ↦
                Delivers-skip s segments part rest start cached long skip
                  (download_segments-Delivers segments rest end cached fresh h)
            | inr on ↦ elim (Bool-cases (leb range_end start)) [
              | inl stop ↦ Delivers-stop s segments part rest start cached long on stop
              | inr more ↦
                  Delivers-read s segments part rest start cached long loaded on more
                    (fetch-eq-load_xorb cached s fresh ∙ found) cut
                    (download_segments-Delivers segments rest end
                      (some (s.xorb_hash, loaded.0, loaded.1)) found h)
            ]
          ])

    -- The loop over a whole file delivers blocks that join to the slice `offset..range_end`.
    pub download_segments-deliver :
        (segments : List Segment) (content : Bytes)
        → Holds segments content
        → (blocks : List Bytes) × All IsBlock blocks
          × (concat blocks ≡ slice offset range_end content)
          × ((ch : Channel)
              → download_segments backend offset range_end segments 0 none ch ≡ deliver blocks ch)
    download_segments-deliver segments content h =
        let d = download_segments-Delivers segments content 0 none tt h in
        (
          d.blocks,
          d.bounded,
          d.joined ∙ ap₂ (λ a b. slice a b content) (omega arith) (omega arith),
          d.runs,
        )
