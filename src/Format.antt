-- ===== src/Format.antt =====
-- logdb/src/storage/format.rs and logdb/src/record.rs: the constants of the wire format, the frame
-- header, and the records that pass through it. Its children model the segment header and the
-- record. A byte string is a list of numbers, an array `[u8; 32]` a list of length 32.
pub mod Header
pub mod Record
use lv_logdb.Prelude.{ℕ, ◌+◌, Bytes}

abbrev pub magic : ℕ
magic = 0x4C474442

abbrev pub format_version : ℕ
format_version = 1

abbrev pub hash_algo_blake3 : ℕ
hash_algo_blake3 = 2

abbrev pub record_format_v1 : ℕ
record_format_v1 = 1

abbrev pub segment_header_size : ℕ
segment_header_size = 128

abbrev pub header_crc_end : ℕ
header_crc_end = 72

abbrev pub flag_not_first : ℕ
flag_not_first = 0x01

abbrev pub flag_hash_enabled : ℕ
flag_hash_enabled = 0x02

abbrev pub flag_compressed_zstd : ℕ
flag_compressed_zstd = 0x04

abbrev pub flag_encrypted_aes256gcm : ℕ
flag_encrypted_aes256gcm = 0x08

abbrev pub frame_header_size : ℕ
frame_header_size = 8

abbrev pub min_record_size : ℕ
min_record_size = 60

-- `RecordId`
pub record RecordId : Type 0 where
  pub partition_id : ℕ
  pub sequence : ℕ

-- `ReadView`: a record in a ring slot
pub record ReadView : Type 0 where
  pub record_id : ℕ
  pub timestamp_ns : ℕ
  pub content : Bytes
  pub hash_n : Bytes

-- `record_size`
abbrev pub record_size : ℕ → ℕ
record_size content_len = 4 + 8 + 8 + 4 + content_len + 32 + 4
