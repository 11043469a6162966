-- ===== src/Arachne.antt =====
-- crates/clotho-storage/src/engine.rs: what a download reads. A file is a list of segments, each a
-- range of chunks of an immutable xorb object in the object store. The object store, the shard
-- index and the xorb format are other crates: they are the record `Backend`.
pub mod Download
use Prim.Native.String.{String}
use clotho.Prelude.{ℕ, zero, suc, ◌+◌, ◌≡◌, Option, none, some, List, [], ◌∷◌, ◌++◌, length}
use clotho.Prelude.Bytes.{Bytes}
use clotho.Prelude.Results.{Result, ok, err, ◌>>=◌}

pub data EngineError : Type 0 where
  config : String → EngineError
  invalid_hash : Bytes → EngineError
  file_not_found : Bytes → EngineError
  invalid_range : (offset length file_size : ℕ) → EngineError
  store_error : String → EngineError
  core_error : String → EngineError
  io_error : String → EngineError
  other : String → EngineError

-- xet-core's `FileDataSequenceEntry`, as far as a download reads it.
pub record Segment : Type 0 where
  pub xorb_hash : Bytes
  pub chunk_index_start : ℕ
  pub chunk_index_end : ℕ
  pub unpacked_segment_bytes : ℕ

-- The calls that a download makes of other crates. A stored object never changes, so a call has one
-- result.
pub record Backend : Type 1 where
  pub Object : Type 0
  pub from_hex : Bytes → Option Bytes
  pub get_file_reconstruction_info : Bytes → Result EngineError (Option (List Segment))
  pub get : Bytes → Result EngineError Bytes
  pub deserialize : Bytes → Result EngineError Object
  pub get_bytes_by_chunk_range : Object → Bytes → ℕ → ℕ → Result EngineError Bytes

abbrev pub Message : Type 0
Message = Result EngineError Bytes

-- The sending end of the channel: what has been sent, and how many messages the receiver still
-- takes before it hangs up.
pub record Channel : Type 0 where
  pub sent : List Message
  pub patience : ℕ

abbrev send_within : ℕ → Message → Channel → Option Channel
send_within zero m ch = none
send_within (suc left) m ch = some (record { sent = ch.sent ++ m ∷ []; patience = left })

-- `tx.send`; `none` is the error of a closed channel.
unfoldable pub send : Message → Channel → Option Channel
send m ch = send_within ch.patience m ch

unfoldable pub file_size : List Segment → ℕ
file_size [] = 0
file_size (s ∷ segments) = s.unpacked_segment_bytes + file_size segments
