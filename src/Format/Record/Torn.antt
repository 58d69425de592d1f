-- ===== src/Format/Record/Torn.antt =====
-- A record cut short, as a crash leaves it, is refused by `deserialize_record` of
-- logdb/src/storage/format.rs.
use lv_logdb.Prelude.{
  ℕ, ◌≤◌, ◌<◌, ◌≡◌, ◌∙◌, ap, Bytes, to_le, from_le, int_at, take, length, arith, inl, inr, ltb,
  ltb-false→le, lt→ltb, le→ltb-false, Bool-cases, length-to_le, from_le-to_le, length-take,
  take-take, take-append, IsErr,
}
use lv_logdb.Format.{ReadView, record_size}
use lv_logdb.Format.Record.{IsView, record_bytes, deserialize_record}
use lv_logdb.Format.Record.RoundTrip.{length-record_bytes}

-- The length field is whole in every prefix of four bytes.
pub total-take :
    (crc32c : Bytes → ℕ) (sequence : ℕ) (view : ReadView) (n : ℕ)
    → IsView sequence view
    → 4 ≤ n
    → int_at 4 (take n (record_bytes crc32c sequence view)) 0 ≡ record_size (length view.content)
unfolding record_bytes
total-take crc32c sequence view n v h = rw (take-take 4 n (record_bytes crc32c sequence view) h) (
    ap from_le (take-append 4 (to_le 4 (record_size (length view.content))) _ (length-to_le 4 _))
    ∙ from_le-to_le 4 _ v.size_in)

-- A strict prefix of a record's bytes, of any length, is an error and no record.
deserialize_record-take-IsErr :
    (crc32c : Bytes → ℕ) (sequence : ℕ) (view : ReadView) (n : ℕ)
    → IsView sequence view
    → n < record_size (length view.content)
    → IsErr (deserialize_record crc32c (take n (record_bytes crc32c sequence view)))
unfolding deserialize_record
deserialize_record-take-IsErr crc32c sequence view n v h =
    let torn = take n (record_bytes crc32c sequence view) in
    let size : length torn ≡ n = omega (
      arith,
      length-take n (record_bytes crc32c sequence view),
      length-record_bytes crc32c sequence view v,
    ) in
    elim (Bool-cases (ltb n 60)) [
      | inl short ↦ rw (size, short) tt
      | inr long ↦
          rw
            (
              size,
              long,
              total-take crc32c sequence view n v (omega (arith, ltb-false→le n 60 long)),
              le→ltb-false (record_size (length view.content)) 60 (omega arith),
              lt→ltb n (record_size (length view.content)) h,
            )
            tt
    ]
