-- ===== src/Storage/Segments.antt =====
-- logdb/src/storage/mod.rs: the segment files of a shard. A file is named by its segment id. Its
-- children model the operations. `crc32c` is the function of the crc32c crate, `encode_payload` the
-- compression and the encryption of a batch, of the zstd and aes-gcm crates, which may fail.
pub mod Manager
pub mod Append
pub mod Open
pub mod Roll
pub mod Sync
use lv_logdb.Prelude.{
  ℕ, zero, suc, ◌+◌, ◌-◌, ◌*◌, ◌/◌, ◌%◌, ◌^◌, Bool, true, false, ◌||◌, Option, none, some, List, [],
  ◌∷◌, ◌++◌, Bytes, to_le, take, drop, replicate, length, ltb, leb, ◌==◌, if◌then◌else◌, bit_or,
  Result, ok, err, ℕ_discrete, find, put, remove,
}
use lv_logdb.Format.{
  ReadView, record_size, segment_header_size, header_crc_end, frame_header_size, format_version,
  hash_algo_blake3, record_format_v1, flag_not_first, flag_hash_enabled, flag_compressed_zstd,
  flag_encrypted_aes256gcm,
}
use lv_logdb.Format.Header.{SegmentHeader, serialize, deserialize, u64_max, first_segment}
use lv_logdb.Format.Record.{record_bytes}
use lv_logdb.Ring.{Ring, slot_index}
use lv_logdb.Ring.Slot.{read}
use lv_logdb.Shard.{encode_record_id}
use lv_logdb.Storage.Disk.{Dir}
use lv_logdb.Storage.Index.{SparseIndex, add, should_index, save, new}

pub data SegmentError : Type 0 where
  full : SegmentError
  io : SegmentError

pub record ActiveSegment : Type 0 where
  pub path : ℕ
  pub offset : ℕ
  pub base_sequence : ℕ
  pub min_ts : ℕ
  pub max_ts : ℕ
  pub compressed : Bool
  pub decompressed_offset : ℕ
  pub frame_number : ℕ

-- `ActiveSegment::has_room`
abbrev pub has_room : ActiveSegment → ℕ → ℕ → Bool
has_room a additional max_size = leb ((a.offset + additional) % 2 ^ 64) max_size

-- `ActiveSegment::update_ts_range`
abbrev pub update_ts_range : ActiveSegment → ℕ → ActiveSegment
update_ts_range a ts = record a {
  min_ts = if ltb ts a.min_ts then ts else a.min_ts;
  max_ts = if ltb a.max_ts ts then ts else a.max_ts;
}

pub data RetentionPolicy : Type 0 where
  keep_all : RetentionPolicy
  max_bytes : ℕ → RetentionPolicy
  max_age : ℕ → RetentionPolicy

-- `key_id` is the id of the active key, where there is a key ring; `dir` is the directory.
pub record SegmentManager : Type 0 where
  pub dir : Dir
  pub index_files : List (ℕ × Bytes)
  pub active : ActiveSegment
  pub active_id : ℕ
  pub segment_size : ℕ
  pub last_hash : Bytes
  pub hash_init : Bytes
  pub hash_enabled : Bool
  pub compressed : Bool
  pub key_id : Option ℕ
  pub retention : RetentionPolicy
  pub active_index : Option SparseIndex
  pub active_index_count : ℕ
  pub prepared_segment : Option (ℕ × ActiveSegment)
  pub shard_id : ℕ
  pub shard_bits : ℕ
  pub pending_fsync : List ℕ

abbrev pub is_some {ℓ} : {A : Type ℓ} → Option A → Bool
is_some none = false
is_some (some a) = true

abbrev pub get_or_zero : Option ℕ → ℕ
get_or_zero none = 0
get_or_zero (some n) = n

abbrev pub default_stride : ℕ
default_stride = 1024

abbrev pub fresh_index : Bool → Option ℕ → Option SparseIndex
fresh_index compressed key_id =
    if compressed || is_some key_id then none else some (new default_stride)

-- The flags that compression and encryption add.
abbrev pub layout_flags : Bool → Option ℕ → ℕ → ℕ
layout_flags compressed key_id flags =
    let zstd = if compressed then bit_or flags flag_compressed_zstd else flags in
    if is_some key_id then bit_or zstd flag_encrypted_aes256gcm else zstd

-- The header of the segment after the active one, in `maybe_prepare_next` and in `roll`.
unfoldable pub new_header : SegmentManager → ℕ → ℕ → SegmentHeader
new_header m new_id base_sequence = record {
  format_version = format_version;
  flags =
      layout_flags m.compressed m.key_id
        (bit_or (if m.hash_enabled then flag_hash_enabled else 0) flag_not_first);
  hash_algo = hash_algo_blake3;
  hash_init = m.hash_init;
  base_sequence = base_sequence;
  partition_id = 0;
  segment_id = new_id;
  min_timestamp_ns = u64_max;
  max_timestamp_ns = 0;
  prev_last_hash = m.last_hash;
  record_format = record_format_v1;
  encryption_key_id = get_or_zero m.key_id;
}

-- `ActiveSegment::open_existing`
abbrev pub open_segment : ℕ → ℕ → ℕ → ℕ → ℕ → Bool → ActiveSegment
open_segment path offset base_sequence min_ts max_ts compressed = record {
  path = path;
  offset = offset;
  base_sequence = base_sequence;
  min_ts = min_ts;
  max_ts = max_ts;
  compressed = compressed;
  decompressed_offset = 0;
  frame_number = 0;
}
