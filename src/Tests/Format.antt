-- ===== src/Tests/Format.antt =====
-- The wire format (logdb/src/storage/format.rs) at a header and a record.
use lv_logdb.Prelude.{◌≡◌, ◌++◌, refl, ok, [], ◌∷◌, replicate}
use lv_logdb.Format.Header.{serialize, deserialize}
use lv_logdb.Format.Header.RoundTrip.{deserialize-serialize}
use lv_logdb.Format.Record.{view_record, record_bytes, deserialize_record}
use lv_logdb.Format.Record.RoundTrip.{deserialize_record-record_bytes}
use lv_logdb.Tests.Data.{
  test_crc, test_crc-small, test_header, test_header-IsHeader, first_view, first_view-IsView,
}

deserialize-serialize_example :
    deserialize test_crc (serialize test_crc test_header (replicate 32 8))
    ≡ ok (record test_header { prev_last_hash = replicate 32 8 })
deserialize-serialize_example =
    deserialize-serialize test_crc test_header (replicate 32 8) test_crc-small test_header-IsHeader
      refl

deserialize_record-record_bytes_example :
    deserialize_record test_crc (record_bytes test_crc 40 first_view ++ (9 ∷ 9 ∷ []))
    ≡ ok (view_record 40 first_view, 62)
deserialize_record-record_bytes_example =
    deserialize_record-record_bytes test_crc 40 first_view (9 ∷ 9 ∷ []) test_crc-small
      first_view-IsView
