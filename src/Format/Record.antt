-- ===== src/Format/Record.antt =====
-- `serialize_record` and `deserialize_record` of logdb/src/storage/format.rs: a record in a segment.
-- `crc32c` is the function of the crc32c crate. Its input has zeros for the length field.
pub mod RoundTrip
pub mod Torn
use lv_logdb.Prelude.{
  ℕ, ◌+◌, ◌<◌, ◌^◌, ◌≡◌, Option, none, some, List, [], ◌∷◌, ◌++◌, Bytes, to_le, int_at, slice, take,
  drop, concat, replicate, length, ltb, ◌!=◌, if◌then◌else◌, Result, ok, ◌>>=◌, ◌>>◌, fail_if,
}
use lv_logdb.Format.{ReadView, RecordId, min_record_size, record_size}

-- `Record`: a record read back from a segment
pub record Record : Type 0 where
  pub id : RecordId
  pub timestamp_ns : ℕ
  pub content : Bytes
  pub hash_n : Bytes

-- The `String` errors of `deserialize_record`, by their cause.
pub data RecordError : Type 0 where
  buffer_too_short : ℕ → RecordError
  len_too_small : ℕ → RecordError
  len_exceeds_buffer : ℕ → ℕ → RecordError
  size_mismatch : ℕ → ℕ → RecordError
  crc_mismatch : ℕ → ℕ → ℕ → RecordError

-- The ranges that the field types give, and a length that fits its 32 bits.
pub record IsView (sequence : ℕ) (view : ReadView) : Type 0 where
  pub sequence_in : sequence < 256 ^ 8
  pub timestamp_in : view.timestamp_ns < 256 ^ 8
  pub hash_in : length view.hash_n ≡ 32
  pub size_in : record_size (length view.content) < 256 ^ 4

-- The writes into bytes 4 to `crc_start`.
abbrev pub body_fields : ℕ → ReadView → List Bytes
body_fields sequence view =
    to_le 8 sequence
    ∷ to_le 8 view.timestamp_ns
    ∷ to_le 4 (length view.content)
    ∷ view.content
    ∷ view.hash_n
    ∷ []

abbrev pub view_record : ℕ → ReadView → Record
view_record sequence view = record {
  id = record { partition_id = 0; sequence = sequence };
  timestamp_ns = view.timestamp_ns;
  content = view.content;
  hash_n = view.hash_n;
}

module _ (crc32c : Bytes → ℕ) where
  -- The bytes 0 to `total` that `serialize_record` leaves in its buffer.
  pub record_bytes : ℕ → ReadView → Bytes
  record_bytes sequence view =
      let body = concat (body_fields sequence view) in
      to_le 4 (record_size (length view.content))
      ++ (body ++ to_le 4 (crc32c (replicate 4 0 ++ body)))

  -- `none` is the panic of `assert!`; else the buffer after the writes, and `total`.
  pub serialize_record : Bytes → ℕ → ReadView → Option (Bytes × ℕ)
  serialize_record buf sequence view =
      let total = record_size (length view.content) in
      if ltb (length buf) total
      then none
      else some (record_bytes sequence view ++ drop total buf, total)

  pub deserialize_record : Bytes → Result RecordError (Record × ℕ)
  deserialize_record buf = do
    fail_if (ltb (length buf) min_record_size) (buffer_too_short (length buf))
    let total = int_at 4 buf 0
    fail_if (ltb total min_record_size) (len_too_small total)
    fail_if (ltb (length buf) total) (len_exceeds_buffer total (length buf))
    let sequence = int_at 8 buf 4
    let timestamp_ns = int_at 8 buf 12
    let content_len = int_at 4 buf 20
    let expected_total = record_size content_len
    fail_if (total != expected_total) (size_mismatch total expected_total)
    let content_end = 24 + content_len
    let hash_end = content_end + 32
    let stored_crc = int_at 4 buf hash_end
    let computed_crc = crc32c (replicate 4 0 ++ drop 4 (take hash_end buf))
    fail_if (stored_crc != computed_crc) (crc_mismatch sequence stored_crc computed_crc)
    ok (
      record {
        id = record { partition_id = 0; sequence = sequence };
        timestamp_ns = timestamp_ns;
        content = slice buf 24 content_end;
        hash_n = slice buf content_end hash_end;
      },
      total,
    )
