-- ===== src/Storage/Segments/Open.antt =====
-- How a `SegmentManager` of logdb/src/storage/mod.rs comes to be, and its settings.
pub mod Created
use lv_logdb.Prelude.{
  ℕ, zero, Bool, true, false, ◌^◌, ◌-◌, Bytes, Option, none, some, List, [], bit_and, ◌!=◌,
  if◌then◌else◌,
}
use lv_logdb.Format.{hash_algo_blake3, flag_hash_enabled, flag_compressed_zstd, segment_header_size}
use lv_logdb.Format.Header.{SegmentHeader, serialize, first_segment, zero_hash}
use lv_logdb.Storage.Disk.{Dir, create_file}
use lv_logdb.Storage.Index.{SparseIndex, new}
use lv_logdb.Storage.Segments.{
  SegmentManager, ActiveSegment, RetentionPolicy, fresh_index, layout_flags, get_or_zero,
  open_segment,
}

-- A manager around a segment, with all that both constructors set alike.
abbrev with_active :
    Dir
    → List (ℕ × Bytes)
    → ActiveSegment
    → ℕ
    → ℕ
    → Bytes
    → Bytes
    → Bool
    → Option ℕ
    → RetentionPolicy
    → SegmentManager
with_active dir index_files active active_id segment_size last_hash hash_init hash_enabled key_id
      retention =
    record {
      dir = dir;
      index_files = index_files;
      active = active;
      active_id = active_id;
      segment_size = segment_size;
      last_hash = last_hash;
      hash_init = hash_init;
      hash_enabled = hash_enabled;
      compressed = active.compressed;
      key_id = key_id;
      retention = retention;
      active_index = fresh_index active.compressed key_id;
      active_index_count = 0;
      prepared_segment = none;
      shard_id = 0;
      shard_bits = 0;
      pending_fsync = [];
    }

-- The header that `create` writes.
abbrev pub created_header : Bool → Bool → Option ℕ → Bytes → ℕ → SegmentHeader
created_header hash_enabled compressed key_id hash_init base_sequence =
    record (first_segment hash_init base_sequence 0 1 hash_enabled hash_algo_blake3) {
      flags = layout_flags compressed key_id (if hash_enabled then flag_hash_enabled else 0);
      encryption_key_id = get_or_zero key_id;
    }

-- `SegmentManager::create` on a directory; `none` is its I/O error, where segment 1 is there.
unfoldable pub create_manager :
    (Bytes → ℕ)
    → Dir
    → List (ℕ × Bytes)
    → ℕ
    → Bool
    → Bool
    → Option ℕ
    → Bytes
    → RetentionPolicy
    → ℕ
    → Option SegmentManager
create_manager crc32c dir index_files segment_size hash_enabled compressed key_id hash_init
      retention base_sequence =
    let header = created_header hash_enabled compressed key_id hash_init base_sequence in
    elim (create_file 1 (serialize crc32c header zero_hash) dir) [
      | none ↦ none
      | some made ↦ some (
          with_active made index_files
            (open_segment 1 segment_header_size base_sequence (2 ^ 64 - 1) 0 compressed) 1
            segment_size zero_hash hash_init hash_enabled key_id retention)
    ]

-- `SegmentManager::open_existing` for a file that is there.
unfoldable pub open_existing :
    Dir
    → List (ℕ × Bytes)
    → ℕ
    → ℕ
    → SegmentHeader
    → ℕ
    → Bytes
    → Bytes
    → Bool
    → Option ℕ
    → RetentionPolicy
    → SegmentManager
open_existing dir index_files active_id active_offset header segment_size last_hash hash_init
      hash_enabled key_id retention =
    with_active dir index_files
      (open_segment active_id active_offset header.base_sequence header.min_timestamp_ns
        header.max_timestamp_ns (bit_and header.flags flag_compressed_zstd != 0))
      active_id segment_size last_hash hash_init hash_enabled key_id retention

unfoldable pub set_index_stride : SegmentManager → ℕ → SegmentManager
set_index_stride m stride = elim m.active_index [
  | none ↦ m
  | some idx ↦ record m { active_index = some (new stride) }
]

abbrev pub set_shard : SegmentManager → ℕ → ℕ → SegmentManager
set_shard m shard_id shard_bits = record m { shard_id = shard_id; shard_bits = shard_bits }

abbrev pub set_last_hash : SegmentManager → Bytes → SegmentManager
set_last_hash m hash = record m { last_hash = hash }
