-- ===== src/Tests/Data.antt =====
-- Data of the tests: a checksum and a keyed hash that compute, a header, and records of a segment
-- (logdb/src/storage/format.rs).
use lv_logdb.Prelude.{
  ℕ, ◌+◌, ◌*◌, ◌%◌, ◌^◌, ◌<◌, refl, [], ◌∷◌, ◌++◌, Bytes, replicate, to_le, length-to_le, arith,
}
use lv_logdb.Format.{ReadView}
use lv_logdb.Format.Header.{SegmentHeader, IsHeader}
use lv_logdb.Format.Record.{IsView}

abbrev pub sum_bytes : Bytes → ℕ
sum_bytes [] = 7
sum_bytes (b ∷ bs) = b + 3 * sum_bytes bs

abbrev pub test_crc : Bytes → ℕ
test_crc bs = sum_bytes bs % 2 ^ 32

pub test_crc-small : (bs : Bytes) → test_crc bs < 256 ^ 4
test_crc-small bs = omega arith

-- 32 bytes that depend on the key and on the message.
abbrev pub test_hash : Bytes → Bytes → Bytes
test_hash key message = to_le 32 (sum_bytes (message ++ key))

abbrev pub test_key : Bytes
test_key = replicate 32 5

abbrev pub test_header : SegmentHeader
test_header = record {
  format_version = 1;
  flags = 2;
  hash_algo = 2;
  hash_init = test_key;
  base_sequence = 40;
  partition_id = 0;
  segment_id = 3;
  min_timestamp_ns = 1000;
  max_timestamp_ns = 2000;
  prev_last_hash = replicate 32 0;
  record_format = 1;
  encryption_key_id = 0;
}

pub test_header-IsHeader : IsHeader test_header
test_header-IsHeader = record {
  version_in = omega arith;
  flags_in = omega arith;
  hash_algo_in = omega arith;
  hash_init_in = refl;
  base_sequence_in = omega arith;
  partition_id_in = omega arith;
  segment_id_in = omega arith;
  min_timestamp_in = omega arith;
  max_timestamp_in = omega arith;
  prev_last_hash_in = refl;
  record_format_in = omega arith;
  encryption_key_id_in = omega arith;
}

abbrev pub first_view : ReadView
first_view = record {
  record_id = 40;
  timestamp_ns = 1000;
  content = 1 ∷ 2 ∷ [];
  hash_n = test_hash test_key (replicate 32 0 ++ (1 ∷ 2 ∷ []));
}

abbrev pub second_view : ReadView
second_view = record {
  record_id = 41;
  timestamp_ns = 2000;
  content = 3 ∷ [];
  hash_n = test_hash test_key (first_view.hash_n ++ (3 ∷ []));
}

pub first_view-IsView : IsView 40 first_view
first_view-IsView = record {
  sequence_in = omega arith;
  timestamp_in = omega arith;
  hash_in = length-to_le 32 _;
  size_in = omega arith;
}

pub second_view-IsView : IsView 41 second_view
second_view-IsView = record {
  sequence_in = omega arith;
  timestamp_in = omega arith;
  hash_in = length-to_le 32 _;
  size_in = omega arith;
}
