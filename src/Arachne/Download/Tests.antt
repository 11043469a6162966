-- ===== src/Arachne/Download/Tests.antt =====
-- Downloads from a store of one xorb that two segments share.
use clotho.Prelude.{◌≡◌, refl, some, List, [], ◌∷◌, ◌++◌, map, slice, concat, arith}
use clotho.Prelude.Bytes.{Bytes, text_code}
use clotho.Prelude.Results.{ok}
use clotho.Arachne.{Segment, Backend, Channel, send, file_size}
use clotho.Arachne.Download.{download_range, download, download_block_bytes, load_xorb}
use clotho.Arachne.Download.Segments.{Holds, segment_data}
use clotho.Arachne.Download.Range.{Delivered, download_range-Delivered, download_complete}

download_code : Unit {0}
unfolding download send file_size download_block_bytes text_code
download_code = tt

-- The xorb is its own object, and a chunk is a byte.
abbrev segments : List Segment
segments =
    record {
      xorb_hash = 7 ∷ [];
      chunk_index_start = 0;
      chunk_index_end = 3;
      unpacked_segment_bytes = 3;
    }
    ∷ record {
      xorb_hash = 7 ∷ [];
      chunk_index_start = 2;
      chunk_index_end = 4;
      unpacked_segment_bytes = 2;
    }
    ∷ []

abbrev store : Backend
store = record {
  Object = Bytes;
  from_hex = λ h. some h;
  get_file_reconstruction_info = λ h. ok (some segments);
  get = λ h. ok (10 ∷ 11 ∷ 12 ∷ 13 ∷ []);
  deserialize = λ b. ok b;
  get_bytes_by_chunk_range = λ object b from to. ok (slice from to object);
}

abbrev content : Bytes
content = 10 ∷ 11 ∷ 12 ∷ 12 ∷ 13 ∷ []

content-Holds : Holds store segments content
unfolding segment_data load_xorb
content-Holds =
    (10 ∷ 11 ∷ 12 ∷ [], 12 ∷ 13 ∷ [], refl, refl, refl, (12 ∷ 13 ∷ [], [], refl, refl, refl, refl))

abbrev waiting : Channel
waiting = record { sent = []; patience = 9 }

across_segments :
    (download_range store (1 ∷ []) 1 3 waiting).sent ≡ ok (11 ∷ 12 ∷ []) ∷ ok (12 ∷ []) ∷ []
unfolding download_code
across_segments = refl

receiver_leaves :
    (download_range store (1 ∷ []) 1 3 (record { sent = []; patience = 1 })).sent
    ≡ ok (11 ∷ 12 ∷ []) ∷ []
unfolding download_code
receiver_leaves = refl

download_range-Delivered_example :
    Delivered waiting (download_range store (1 ∷ []) 1 3 waiting) (11 ∷ 12 ∷ 12 ∷ [])
download_range-Delivered_example =
    download_range-Delivered store content refl refl content-Holds 1 3 waiting (omega arith)
      (omega arith)

download_complete_example :
    (blocks : List Bytes) × (concat blocks ≡ content)
    × ((download store (1 ∷ []) waiting).sent ≡ [] ++ map ok blocks)
download_complete_example =
    download_complete store content refl refl content-Holds waiting (omega arith)
