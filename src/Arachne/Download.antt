-- ===== src/Arachne/Download.antt =====
-- `download_inner` and `download_range` of crates/clotho-storage/src/engine.rs.
pub mod Blocks
pub mod Segments
pub mod Range
mod Tests
use clotho.Prelude.{
  ℕ, zero, suc, ◌+◌, ◌-◌, ◌*◌, ◌^◌, Bool, true, false, ◌&&◌, ◌||◌, not, Option, none, some, List,
  [], ◌∷◌, length, slice, ltb, leb, ◌==◌, if◌then◌else◌, min,
}
use clotho.Prelude.Bytes.{Bytes, beq}
use clotho.Prelude.Decimal.{u64_mod}
use clotho.Prelude.Results.{Result, ok, err, ◌>>=◌}
use clotho.Arachne.{
  EngineError, invalid_hash, file_not_found, invalid_range, Segment, Backend, Channel, send,
  file_size,
}

unfoldable pub download_block_bytes : ℕ
download_block_bytes = 2 * 1024 * 1024

-- `offset.saturating_add(length).min(file_size)`; a length of 0 means to the end.
abbrev pub range_end : (offset length size : ℕ) → ℕ
range_end offset len size = if len == 0 then size else min (min (offset + len) (u64_mod - 1)) size

-- How `download_inner` ends. A slice out of range panics.
pub data Ending : Type 0 where
  finished hung_up panicked : Ending
  failed : EngineError → Ending

-- The loop over `(0..data.len()).step_by(DOWNLOAD_BLOCK_BYTES)`, and whether the receiver is still
-- there at its end. The length of the data is fuel enough.
pub send_blocks : ℕ → Bytes → ℕ → Channel → Bool × Channel
send_blocks zero part offset ch = (true, ch)
send_blocks (suc fuel) part offset ch =
    let end = min (offset + download_block_bytes) (length part) in
    let rest : Bool × Channel = elim (send (ok (slice offset end part)) ch) [
      | none ↦ (false, ch)
      | some ch' ↦ send_blocks fuel part (offset + download_block_bytes) ch'
    ] in
    if ltb offset (length part) then rest else (true, ch)

-- A receiver that hung up ends the download with no error.
pub unless_hung_up : Bool × Channel → (Channel → Ending × Channel) → Ending × Channel
unless_hung_up (false, ch) next = (hung_up, ch)
unless_hung_up (true, ch) next = next ch

-- The bytes `from..to` of a segment are sent, and the loop goes on.
send_part :
    (from to : ℕ)
    → Result EngineError Bytes
    → Channel
    → (Channel → Ending × Channel)
    → Ending × Channel
send_part from to (err e) ch next = (failed e, ch)
send_part from to (ok part) ch next =
    if leb from to && leb to (length part)
    then unless_hung_up (send_blocks (length (slice from to part)) (slice from to part) 0 ch) next
    else (panicked, ch)

-- A message that a closed channel refuses is dropped.
abbrev pub or_unsent : Option Channel → Channel → Channel
or_unsent none ch = ch
or_unsent (some ch') ch = ch'

-- An error is the last message, if the receiver takes it.
abbrev pub report : Ending × Channel → Channel
report (failed e, ch) = or_unsent (send (err e) ch) ch
report (ending, ch) = ch

-- What `download_inner` keeps of the last xorb object that it fetched: its hash, the object and the
-- bytes that it was read from.
abbrev pub Cache : Backend → Type 0
Cache backend = Option (Bytes × backend.Object × Bytes)

module _ (backend : Backend) where
  open backend use {
    Object, from_hex, get_file_reconstruction_info, get, deserialize, get_bytes_by_chunk_range,
  }

  unfoldable pub load_xorb : Bytes → Result EngineError (Object × Bytes)
  load_xorb hash = do bytes ← get hash; object ← deserialize bytes; ok (object, bytes)

  -- The object of a segment: from the cache, if its hash is the one that is cached.
  fetch : Cache backend → Segment → Result EngineError (Object × Bytes)
  fetch none segment = load_xorb segment.xorb_hash
  fetch (some (hash, object, bytes)) segment =
      if beq hash segment.xorb_hash then ok (object, bytes) else load_xorb segment.xorb_hash

  with_xorb :
      Result EngineError (Object × Bytes)
      → Channel
      → (Object → Bytes → Ending × Channel)
      → Ending × Channel
  with_xorb (err e) ch next = (failed e, ch)
  with_xorb (ok (object, bytes)) ch next = next object bytes

  -- The loop over the segments, from the one that starts at `segment_start`.
  pub download_segments :
      (offset range_end : ℕ) → List Segment → ℕ → Cache backend → Channel → Ending × Channel
  download_segments offset range_end [] segment_start cached ch = (finished, ch)
  download_segments offset range_end (segment ∷ segments) segment_start cached ch =
      let segment_end = segment_start + segment.unpacked_segment_bytes in
      let skipped = download_segments offset range_end segments segment_end cached ch in
      let read = with_xorb (fetch cached segment) ch λ object bytes.
        send_part (offset - segment_start) (min range_end segment_end - segment_start)
          (get_bytes_by_chunk_range object bytes segment.chunk_index_start segment.chunk_index_end)
          ch
          λ ch'.
            download_segments offset range_end segments segment_end
              (some (segment.xorb_hash, object, bytes)) ch' in
      if leb segment_end offset
      then skipped
      else if leb range_end segment_start
      then (finished, ch)
      else read

  -- The body of `download_inner` once the file is found.
  download_file : (offset length : ℕ) → List Segment → Channel → Ending × Channel
  download_file offset len segments ch =
      if ltb (file_size segments) offset || leb u64_mod (len + offset)
      then (failed (invalid_range offset len (file_size segments)), ch)
      else download_segments offset (range_end offset len (file_size segments)) segments 0 none ch

  found_file :
      Result EngineError (Option (List Segment))
      → Bytes
      → (List Segment → Ending × Channel)
      → Channel
      → Ending × Channel
  found_file (err e) file_hash next ch = (failed e, ch)
  found_file (ok none) file_hash next ch = (failed (file_not_found file_hash), ch)
  found_file (ok (some segments)) file_hash next ch = next segments

  known_hash : Option Bytes → Bytes → (Bytes → Ending × Channel) → Channel → Ending × Channel
  known_hash none file_hash next ch = (failed (invalid_hash file_hash), ch)
  known_hash (some hash) file_hash next ch = next hash

  unfoldable pub download_inner : Bytes → (offset length : ℕ) → Channel → Ending × Channel
  unfolding known_hash found_file download_file download_segments with_xorb fetch load_xorb
      send_part unless_hung_up send_blocks
  download_inner file_hash offset len ch =
      known_hash (from_hex file_hash) file_hash
        (λ hash.
          found_file (get_file_reconstruction_info hash) file_hash
            (λ segments. download_file offset len segments ch) ch)
        ch

  -- The state of the channel at the end.
  unfoldable pub download_range : Bytes → (offset length : ℕ) → Channel → Channel
  unfolding download_inner
  download_range file_hash offset len ch = report (download_inner file_hash offset len ch)

  unfoldable pub download : Bytes → Channel → Channel
  unfolding download_range
  download file_hash ch = download_range file_hash 0 0 ch
