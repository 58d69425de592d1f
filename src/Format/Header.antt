-- ===== src/Format/Header.antt =====
-- `SegmentHeader` of logdb/src/storage/format.rs: the 128 bytes at the head of a segment file.
-- `crc32c` is the function of the crc32c crate.
pub mod RoundTrip
use lv_logdb.Prelude.{
  ℕ, ◌+◌, ◌^◌, ◌-◌, ◌<◌, Bool, ◌!=◌, List, [], ◌∷◌, ◌++◌, Bytes, IsByte, All, to_le, int_at, slice,
  take, concat, replicate, length, ◌==◌, if◌then◌else◌, bit_and, bit_or, Result, ok, err, ◌>>=◌,
  ◌>>◌, fail_if, ◌≡◌,
}
use lv_logdb.Format.{
  magic, format_version, record_format_v1, header_crc_end, flag_not_first, flag_hash_enabled,
}

pub record SegmentHeader : Type 0 where
  pub format_version : ℕ
  pub flags : ℕ
  pub hash_algo : ℕ
  pub hash_init : Bytes
  pub base_sequence : ℕ
  pub partition_id : ℕ
  pub segment_id : ℕ
  pub min_timestamp_ns : ℕ
  pub max_timestamp_ns : ℕ
  pub prev_last_hash : Bytes
  pub record_format : ℕ
  pub encryption_key_id : ℕ

-- The ranges that the field types of the struct give.
pub record IsHeader (h : SegmentHeader) : Type 0 where
  pub version_in : h.format_version < 256 ^ 2
  pub flags_in : h.flags < 256 ^ 1
  pub hash_algo_in : h.hash_algo < 256 ^ 1
  pub hash_init_in : length h.hash_init ≡ 32
  pub base_sequence_in : h.base_sequence < 256 ^ 8
  pub partition_id_in : h.partition_id < 256 ^ 4
  pub segment_id_in : h.segment_id < 256 ^ 4
  pub min_timestamp_in : h.min_timestamp_ns < 256 ^ 8
  pub max_timestamp_in : h.max_timestamp_ns < 256 ^ 8
  pub prev_last_hash_in : length h.prev_last_hash ≡ 32
  pub record_format_in : h.record_format < 256 ^ 1
  pub encryption_key_id_in : h.encryption_key_id < 256 ^ 16

-- The `String` errors of `deserialize`, by their cause.
pub data HeaderError : Type 0 where
  bad_magic : ℕ → HeaderError
  header_crc_mismatch : ℕ → ℕ → HeaderError

abbrev pub u64_max : ℕ
u64_max = 2 ^ 64 - 1

abbrev pub zero_hash : Bytes
zero_hash = replicate 32 0

pub is_first : SegmentHeader → Bool
is_first h = bit_and h.flags flag_not_first == 0

unfoldable pub hash_enabled : SegmentHeader → Bool
hash_enabled h = bit_and h.flags flag_hash_enabled != 0

-- The writes of `serialize` into bytes 0 to 72, which cover them in order and without a gap.
abbrev pub checked_fields : SegmentHeader → List Bytes
checked_fields h =
    to_le 4 magic
    ∷ to_le 2 h.format_version
    ∷ to_le 1 h.flags
    ∷ to_le 1 h.hash_algo
    ∷ h.hash_init
    ∷ to_le 8 h.base_sequence
    ∷ to_le 4 h.partition_id
    ∷ to_le 4 h.segment_id
    ∷ to_le 8 h.min_timestamp_ns
    ∷ to_le 8 h.max_timestamp_ns
    ∷ []

-- Those into bytes 72 to 128, the last of which keep the zeros of `fill`.
abbrev pub unchecked_fields : SegmentHeader → Bytes → ℕ → List Bytes
unchecked_fields h last_hash crc =
    to_le 4 crc
    ∷ last_hash
    ∷ to_le 1 h.record_format
    ∷ to_le 16 h.encryption_key_id
    ∷ replicate 3 0
    ∷ []

module _ (crc32c : Bytes → ℕ) where
  unfoldable pub serialize : SegmentHeader → Bytes → Bytes
  serialize h last_hash =
      concat (checked_fields h)
      ++ concat (unchecked_fields h last_hash (crc32c (concat (checked_fields h))))

  pub deserialize : Bytes → Result HeaderError SegmentHeader
  deserialize buf = do
    let m = int_at 4 buf 0
    fail_if (m != magic) (bad_magic m)
    let stored_crc = int_at 4 buf 72
    let computed_crc = crc32c (take header_crc_end buf)
    fail_if (stored_crc != computed_crc) (header_crc_mismatch stored_crc computed_crc)
    ok (record {
      format_version = int_at 2 buf 4;
      flags = int_at 1 buf 6;
      hash_algo = int_at 1 buf 7;
      hash_init = slice buf 8 40;
      base_sequence = int_at 8 buf 40;
      partition_id = int_at 4 buf 48;
      segment_id = int_at 4 buf 52;
      min_timestamp_ns = int_at 8 buf 56;
      max_timestamp_ns = int_at 8 buf 64;
      prev_last_hash = slice buf 76 108;
      record_format = int_at 1 buf 108;
      encryption_key_id = int_at 16 buf 109;
    })

unfoldable pub first_segment : Bytes → ℕ → ℕ → ℕ → Bool → ℕ → SegmentHeader
first_segment hash_init base_sequence partition_id segment_id hashed hash_algo = record {
  format_version = format_version;
  flags = if hashed then bit_or 0 flag_hash_enabled else 0;
  hash_algo = hash_algo;
  hash_init = hash_init;
  base_sequence = base_sequence;
  partition_id = partition_id;
  segment_id = segment_id;
  min_timestamp_ns = u64_max;
  max_timestamp_ns = 0;
  prev_last_hash = zero_hash;
  record_format = record_format_v1;
  encryption_key_id = 0;
}

pub next_segment : SegmentHeader → ℕ → ℕ → Bytes → SegmentHeader
next_segment h base_sequence segment_id prev_last_hash = record {
  format_version = format_version;
  flags = bit_or h.flags flag_not_first;
  hash_algo = h.hash_algo;
  hash_init = h.hash_init;
  base_sequence = base_sequence;
  partition_id = h.partition_id;
  segment_id = segment_id;
  min_timestamp_ns = u64_max;
  max_timestamp_ns = 0;
  prev_last_hash = prev_last_hash;
  record_format = record_format_v1;
  encryption_key_id = 0;
}
