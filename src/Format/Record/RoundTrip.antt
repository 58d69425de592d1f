-- ===== src/Format/Record/RoundTrip.antt =====
-- What `serialize_record` of logdb/src/storage/format.rs writes, `deserialize_record` reads back,
-- whatever follows in the buffer.
use lv_logdb.Prelude.{
  ℕ, ◌+◌, ◌-◌, ◌<◌, ◌^◌, ◌≡◌, refl, sym, ap, ◌∙◌, List, [], ◌∷◌, ◌++◌, append_assoc, append-nil,
  Bytes, to_le, int_at, slice, take, drop, concat, replicate, length, ok, arith, length-to_le,
  length-append, from_le-to_le, slice-field, concat-append, drop-take, take-append, drop-append,
  !=-refl, le→ltb-false, length-concat-field, get_elem?, get_or, offset, some,
}
use lv_logdb.Format.{ReadView, record_size}
use lv_logdb.Format.Record.{IsView, body_fields, view_record, record_bytes, deserialize_record}

abbrev body : ℕ → ReadView → Bytes
body sequence view = concat (body_fields sequence view)

abbrev fields : ℕ → ReadView → ℕ → List Bytes
fields sequence view crc =
    to_le 4 (record_size (length view.content)) ∷ body_fields sequence view ++ (to_le 4 crc ∷ [])

abbrev widths : ℕ → List ℕ
widths size = 4 ∷ 8 ∷ 8 ∷ 4 ∷ size ∷ 32 ∷ 4 ∷ []

module _ (sequence : ℕ) (view : ReadView) (crc : ℕ) (v : IsView sequence view) (rest : Bytes) where
  field :
      (k : ℕ) {f : Bytes}
      → get_elem? (fields sequence view crc) k ≡ some f
      → slice
          (concat (fields sequence view crc) ++ rest)
          (offset k (widths (length view.content)))
          (offset k (widths (length view.content)) + get_or (widths (length view.content)) k 0)
        ≡ f
  field k e =
      slice-field (fields sequence view crc) (widths (length view.content)) rest
        (omega (arith, length-to_le)) k e

  length-buf :
      length (concat (fields sequence view crc) ++ rest)
      ≡ record_size (length view.content) + length rest
  length-buf = omega (
    arith,
    length-append (concat (fields sequence view crc)) rest,
    length-concat-field (fields sequence view crc) (widths (length view.content))
        (omega (arith, length-to_le)),
  )

  hash-slice :
      slice
        (concat (fields sequence view crc) ++ rest)
        (24 + length view.content)
        (24 + length view.content + 32)
      ≡ view.hash_n
  hash-slice =
      let e : 4 + (8 + (8 + (4 + (length view.content + 0)))) ≡ 24 + length view.content =
        omega arith in
      rw e at (field 5 refl)

  crc-slice :
      slice
        (concat (fields sequence view crc) ++ rest)
        (24 + length view.content + 32)
        (24 + length view.content + 32 + 4)
      ≡ to_le 4 crc
  crc-slice =
      let e : 4 + (8 + (8 + (4 + (length view.content + (32 + 0)))))
          ≡ 24 + length view.content + 32 =
        omega arith in
      rw e at (field 6 refl)

  record_bytes-buf :
      to_le 4 (record_size (length view.content)) ++ (body sequence view ++ to_le 4 crc) ++ rest
      ≡ (concat (fields sequence view crc) ++ rest)
  record_bytes-buf =
      ap (λ t. to_le 4 (record_size (length view.content)) ++ t ++ rest)
        (sym (
          concat-append (body_fields sequence view) (to_le 4 crc ∷ [])
          ∙ ap (λ t. body sequence view ++ t) (append-nil (to_le 4 crc))))

  length-body : length (body sequence view) ≡ 52 + length view.content
  length-body = omega (
    arith,
    length-concat-field (body_fields sequence view) (8 ∷ 8 ∷ 4 ∷ length view.content ∷ 32 ∷ [])
        (omega (arith, length-to_le)),
  )

  checked-slice :
      drop 4 (take (24 + length view.content + 32) (concat (fields sequence view crc) ++ rest))
      ≡ body sequence view
  checked-slice =
      let e : 24 + length view.content + 32 - 4 ≡ 52 + length view.content = omega arith in
      drop-take 4 (24 + length view.content + 32) (concat (fields sequence view crc) ++ rest)
      ∙ (rw
          (
            e,
            ← record_bytes-buf,
            append_assoc,
            drop-append 4 (to_le 4 (record_size (length view.content))) _ (length-to_le 4 _),
            append_assoc,
          )
          (take-append (52 + length view.content) (body sequence view) _ length-body))

pub length-record_bytes :
    (crc32c : Bytes → ℕ) (sequence : ℕ) (view : ReadView)
    → IsView sequence view
    → length (record_bytes crc32c sequence view) ≡ record_size (length view.content)
unfolding record_bytes
length-record_bytes crc32c sequence view v =
    let crc = crc32c (replicate 4 0 ++ body sequence view) in
    omega (
      arith,
      length-buf sequence view crc v [],
      ap length (
          append-nil
            (to_le 4 (record_size (length view.content)) ++ (body sequence view ++ to_le 4 crc))),
      ap length (record_bytes-buf sequence view crc v []),
    )

-- A record whose fields lie in the ranges of their types, and whose total length fits 32 bits, is
-- read back from any buffer that begins with its bytes: every field, and the number of bytes taken.
pub deserialize_record-record_bytes :
    (crc32c : Bytes → ℕ) (sequence : ℕ) (view : ReadView) (rest : Bytes)
    → ((bs : Bytes) → crc32c bs < 256 ^ 4)
    → IsView sequence view
    → deserialize_record crc32c (record_bytes crc32c sequence view ++ rest)
      ≡ ok (view_record sequence view, record_size (length view.content))
unfolding deserialize_record record_bytes
deserialize_record-record_bytes crc32c sequence view rest small v =
    let crc = crc32c (replicate 4 0 ++ body sequence view) in
    rw (record_bytes-buf sequence view crc v rest) (
      simp
        (
          length-buf sequence view crc v rest,
          field sequence view crc v rest 0 refl,
          field sequence view crc v rest 1 refl,
          field sequence view crc v rest 2 refl,
          field sequence view crc v rest 3 refl,
          from_le-to_le 4 (record_size (length view.content)) v.size_in,
          from_le-to_le 4 (length view.content) (omega (arith, v.size_in)),
          from_le-to_le 8 sequence v.sequence_in,
          from_le-to_le 8 view.timestamp_ns v.timestamp_in,
          !=-refl,
        )
        (rw (
          le→ltb-false (record_size (length view.content) + length rest) 60 (omega arith),
          le→ltb-false (record_size (length view.content)) 60 (omega arith),
          le→ltb-false (record_size (length view.content) + length rest)
              (record_size (length view.content)) (omega arith),
          checked-slice sequence view crc v rest,
          crc-slice sequence view crc v rest,
          hash-slice sequence view crc v rest,
          field sequence view crc v rest 4 refl,
          from_le-to_le 4 crc (small _),
          !=-refl,
        )))

-- The length field, and the record alone.
pub total-record_bytes :
    (crc32c : Bytes → ℕ) (sequence : ℕ) (view : ReadView) (rest : Bytes)
    → IsView sequence view
    → int_at 4 (record_bytes crc32c sequence view ++ rest) 0 ≡ record_size (length view.content)
unfolding record_bytes
total-record_bytes crc32c sequence view rest v =
    rw
      (
        append_assoc (to_le 4 (record_size (length view.content))) _ rest,
        take-append 4 (to_le 4 (record_size (length view.content))) _ (length-to_le 4 _),
      )
      (from_le-to_le 4 _ v.size_in)

pub deserialize_record-whole :
    (crc32c : Bytes → ℕ) (sequence : ℕ) (view : ReadView)
    → ((bs : Bytes) → crc32c bs < 256 ^ 4)
    → IsView sequence view
    → deserialize_record crc32c (record_bytes crc32c sequence view)
      ≡ ok (view_record sequence view, record_size (length view.content))
deserialize_record-whole crc32c sequence view small v =
    ap (deserialize_record crc32c) (sym (append-nil (record_bytes crc32c sequence view)))
    ∙ deserialize_record-record_bytes crc32c sequence view [] small v
