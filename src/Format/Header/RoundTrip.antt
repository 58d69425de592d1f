-- ===== src/Format/Header/RoundTrip.antt =====
-- What `SegmentHeader::serialize` of logdb/src/storage/format.rs writes, `deserialize` reads back.
use lv_logdb.Prelude.{
  ℕ, ◌<◌, ◌^◌, ◌≡◌, refl, ap, ◌∙◌, List, [], ◌∷◌, ◌++◌, Bytes, Layout, length, concat, slice, take,
  take-append, length-to_le, from_le-to_le, slice-field_exact, concat-append, sym, ◌+◌, !=-refl,
  arith, ok, get_elem?, some, offset, get_or, length-concat-field,
}
use lv_logdb.Format.{magic}
use lv_logdb.Format.Header.{
  SegmentHeader, IsHeader, serialize, deserialize, checked_fields, unchecked_fields,
}

abbrev all_widths : List ℕ
all_widths = 4 ∷ 2 ∷ 1 ∷ 1 ∷ 32 ∷ 8 ∷ 4 ∷ 4 ∷ 8 ∷ 8 ∷ 4 ∷ 32 ∷ 1 ∷ 16 ∷ 3 ∷ []

-- Bytes 0 to 72, and all bytes with the checksum of those.
abbrev pub checked : SegmentHeader → Bytes
checked h = concat (checked_fields h)

abbrev written : SegmentHeader → Bytes → ℕ → List Bytes
written h last_hash crc = checked_fields h ++ unchecked_fields h last_hash crc

pub length-checked : (h : SegmentHeader) → length h.hash_init ≡ 32 → length (checked h) ≡ 72
length-checked h v =
    length-concat-field (checked_fields h) (4 ∷ 2 ∷ 1 ∷ 1 ∷ 32 ∷ 8 ∷ 4 ∷ 4 ∷ 8 ∷ 8 ∷ [])
      (omega (arith, length-to_le))

module _ (h : SegmentHeader) (last_hash : Bytes) (crc : ℕ) (v : length h.hash_init ≡ 32)
    (l : length last_hash ≡ 32) where
  written-Layout : Layout (written h last_hash crc) all_widths
  written-Layout = omega (arith, length-to_le)

  field :
      (k : ℕ) {f : Bytes}
      → get_elem? (written h last_hash crc) k ≡ some f
      → slice
          (concat (written h last_hash crc))
          (offset k all_widths)
          (offset k all_widths + get_or all_widths k 0)
        ≡ f
  field k e = slice-field_exact (written h last_hash crc) all_widths written-Layout k e

  take-written : take 72 (concat (written h last_hash crc)) ≡ checked h
  take-written =
      ap (take 72) (concat-append (checked_fields h) (unchecked_fields h last_hash crc))
      ∙ take-append 72 (checked h) _ (length-checked h v)

pub length-serialize :
    (crc32c : Bytes → ℕ) (h : SegmentHeader) (last_hash : Bytes)
    → length h.hash_init ≡ 32
    → length last_hash ≡ 32
    → length (serialize crc32c h last_hash) ≡ 128
unfolding serialize
length-serialize crc32c h last_hash v l =
    let crc = crc32c (checked h) in
    ap length (sym (concat-append (checked_fields h) (unchecked_fields h last_hash crc)))
    ∙ length-concat-field (written h last_hash crc) all_widths (written-Layout h last_hash crc v l)

-- What `serialize` writes for a header whose fields lie in the ranges of their types, with any last
-- hash of 32 bytes, `deserialize` reads back: every field, with that hash as `prev_last_hash`.
-- The checksum may be any function into 32 bits.
pub deserialize-serialize :
    (crc32c : Bytes → ℕ) (h : SegmentHeader) (last_hash : Bytes)
    → ((bs : Bytes) → crc32c bs < 256 ^ 4)
    → IsHeader h
    → length last_hash ≡ 32
    → deserialize crc32c (serialize crc32c h last_hash)
      ≡ ok (record h { prev_last_hash = last_hash })
unfolding deserialize serialize
deserialize-serialize crc32c h last_hash small v l =
    let crc = crc32c (checked h) in
    rw (← concat-append (checked_fields h) (unchecked_fields h last_hash crc)) (
      simp
        (
          at_field 0 refl,
          at_field 1 refl,
          at_field 2 refl,
          at_field 3 refl,
          at_field 4 refl,
          at_field 5 refl,
          at_field 6 refl,
          at_field 7 refl,
          at_field 8 refl,
          at_field 9 refl,
          at_field 10 refl,
          at_field 11 refl,
          at_field 12 refl,
          at_field 13 refl,
          take-written h last_hash crc v.hash_init_in l,
          from_le-to_le 4 magic (omega arith),
        )
        (rw (
          from_le-to_le 4 (crc32c (checked h)) (small _),
          !=-refl,
          from_le-to_le 2 h.format_version v.version_in,
          from_le-to_le 1 h.flags v.flags_in,
          from_le-to_le 1 h.hash_algo v.hash_algo_in,
          from_le-to_le 8 h.base_sequence v.base_sequence_in,
          from_le-to_le 4 h.partition_id v.partition_id_in,
          from_le-to_le 4 h.segment_id v.segment_id_in,
          from_le-to_le 8 h.min_timestamp_ns v.min_timestamp_in,
          from_le-to_le 8 h.max_timestamp_ns v.max_timestamp_in,
          from_le-to_le 1 h.record_format v.record_format_in,
          from_le-to_le 16 h.encryption_key_id v.encryption_key_id_in,
        )))
  where
    at_field :
        (k : ℕ) {f : Bytes}
        → get_elem? (written h last_hash (crc32c (checked h))) k ≡ some f
        → slice
            (concat (written h last_hash (crc32c (checked h))))
            (offset k all_widths)
            (offset k all_widths + get_or all_widths k 0)
          ≡ f
    at_field = field h last_hash (crc32c (checked h)) v.hash_init_in l
