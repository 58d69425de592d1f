-- ===== src/Storage/Segments/Roll/Backfill.antt =====
-- `backfill_header_ts` of logdb/src/storage/mod.rs: the header of a sealed segment.
use lv_logdb.Prelude.{
  ℕ, ◌<◌, ◌^◌, ◌≡◌, refl, sym, ap, ◌∙◌, false, List, [], ◌∷◌, ◌++◌, append_assoc, append-nil, Bytes,
  take, drop, length, concat, concat-append, to_le, length-to_le, length-concat-field, ltb,
  le→ltb-false, arith, take-append, drop-append, length-append, ok, replicate,
}
use lv_logdb.Format.{magic}
use lv_logdb.Format.Header.{SegmentHeader, IsHeader, serialize, deserialize, unchecked_fields}
use lv_logdb.Format.Header.RoundTrip.{
  checked, length-serialize, length-checked, deserialize-serialize,
}
use lv_logdb.Storage.Disk.{Dir, content_of, write_at, splice}
use lv_logdb.Storage.Disk.Files.{content_of-write_at}
use lv_logdb.Storage.Disk.Splice.{splice-skip, splice-here}
use lv_logdb.Storage.Segments.{ActiveSegment}
use lv_logdb.Storage.Segments.Roll.{backfill_header_ts}

-- The bytes of a header in front of the times, and behind the checksum.
abbrev front_fields : SegmentHeader → List Bytes
front_fields h =
    to_le 4 magic
    ∷ to_le 2 h.format_version
    ∷ to_le 1 h.flags
    ∷ to_le 1 h.hash_algo
    ∷ h.hash_init
    ∷ to_le 8 h.base_sequence
    ∷ to_le 4 h.partition_id
    ∷ to_le 4 h.segment_id
    ∷ []

abbrev front : SegmentHeader → Bytes
front h = concat (front_fields h)

abbrev back : SegmentHeader → Bytes → Bytes
back h last_hash =
    concat (last_hash ∷ to_le 1 h.record_format ∷ to_le 16 h.encryption_key_id ∷ replicate 3 0 ∷ [])

length-front : (h : SegmentHeader) → length h.hash_init ≡ 32 → length (front h) ≡ 56
length-front h l =
    length-concat-field (front_fields h) (4 ∷ 2 ∷ 1 ∷ 1 ∷ 32 ∷ 8 ∷ 4 ∷ 4 ∷ [])
      (omega (arith, length-to_le))

checked-front :
    (h : SegmentHeader)
    → checked h ≡ front h ++ (to_le 8 h.min_timestamp_ns ++ to_le 8 h.max_timestamp_ns)
checked-front h =
    concat-append (front_fields h) (to_le 8 h.min_timestamp_ns ∷ to_le 8 h.max_timestamp_ns ∷ [])
    ∙ ap (λ t. front h ++ (to_le 8 h.min_timestamp_ns ++ t))
        (append-nil (to_le 8 h.max_timestamp_ns))

-- A file that begins with a header, by its parts.
abbrev parts : SegmentHeader → Bytes → ℕ → ℕ → ℕ → Bytes → Bytes
parts h last_hash min_ts max_ts crc rest =
    front h ++ (to_le 8 min_ts ++ (to_le 8 max_ts ++ (to_le 4 crc ++ (back h last_hash ++ rest))))

serialize-parts :
    (crc32c : Bytes → ℕ) (h : SegmentHeader) (last_hash rest : Bytes)
    → serialize crc32c h last_hash ++ rest
      ≡ parts h last_hash h.min_timestamp_ns h.max_timestamp_ns (crc32c (checked h)) rest
unfolding serialize
serialize-parts crc32c h last_hash rest =
    ap (λ t. t ++ concat (unchecked_fields h last_hash (crc32c (checked h))) ++ rest)
      (checked-front h)
    ∙ by_parts (front h) (to_le 8 h.min_timestamp_ns) (to_le 8 h.max_timestamp_ns)
        (to_le 4 (crc32c (checked h))) (back h last_hash)
  where
    by_parts :
        (f a b k t : Bytes)
        → (f ++ (a ++ b)) ++ (k ++ t) ++ rest ≡ f ++ (a ++ (b ++ (k ++ (t ++ rest))))
    by_parts f a b k t = simp append_assoc refl

-- The first 72 bytes.
take-parts :
    (h : SegmentHeader) (last_hash : Bytes) (min_ts max_ts crc : ℕ) (rest : Bytes)
    → length h.hash_init ≡ 32
    → take 72 (parts h last_hash min_ts max_ts crc rest)
      ≡ checked (record h { min_timestamp_ns = min_ts; max_timestamp_ns = max_ts })
take-parts h last_hash min_ts max_ts crc rest l =
    let times = record h { min_timestamp_ns = min_ts; max_timestamp_ns = max_ts } in
    let joined : (f a b t : Bytes) → f ++ (a ++ (b ++ t)) ≡ (f ++ (a ++ b)) ++ t =
      (λ f a b t. simp append_assoc refl) in
    ap (take 72) (
      joined (front h) (to_le 8 min_ts) (to_le 8 max_ts)
        (to_le 4 crc ++ (back h last_hash ++ rest)))
    ∙ ap (λ t. take 72 (t ++ (to_le 4 crc ++ (back h last_hash ++ rest))))
        (sym (checked-front times))
    ∙ take-append 72 (checked times) _ (length-checked times l)

-- The three writes.
splice-min :
    (h : SegmentHeader) (last_hash : Bytes) (a b crc min_ts : ℕ) (rest : Bytes)
    → length h.hash_init ≡ 32
    → splice (parts h last_hash a b crc rest) 56 (to_le 8 min_ts)
      ≡ parts h last_hash min_ts b crc rest
splice-min h last_hash a b crc min_ts rest l =
    splice-skip (front h) _ (to_le 8 min_ts) 56 0 (length-front h l)
    ∙ ap (λ t. front h ++ t)
        (splice-here (to_le 8 a) _ (to_le 8 min_ts)
          (length-to_le 8 a ∙ sym (length-to_le 8 min_ts)))

splice-max :
    (h : SegmentHeader) (last_hash : Bytes) (a b crc max_ts : ℕ) (rest : Bytes)
    → length h.hash_init ≡ 32
    → splice (parts h last_hash a b crc rest) 64 (to_le 8 max_ts)
      ≡ parts h last_hash a max_ts crc rest
splice-max h last_hash a b crc max_ts rest l =
    splice-skip (front h) _ (to_le 8 max_ts) 56 8 (length-front h l)
    ∙ ap (λ t. front h ++ t)
        (splice-skip (to_le 8 a) _ (to_le 8 max_ts) 8 0 (length-to_le 8 a)
          ∙ ap (λ t. to_le 8 a ++ t)
              (splice-here (to_le 8 b) _ (to_le 8 max_ts)
                (length-to_le 8 b ∙ sym (length-to_le 8 max_ts))))

splice-crc :
    (h : SegmentHeader) (last_hash : Bytes) (a b crc crc' : ℕ) (rest : Bytes)
    → length h.hash_init ≡ 32
    → splice (parts h last_hash a b crc rest) 72 (to_le 4 crc') ≡ parts h last_hash a b crc' rest
splice-crc h last_hash a b crc crc' rest l =
    splice-skip (front h) _ (to_le 4 crc') 56 16 (length-front h l)
    ∙ ap (λ t. front h ++ t)
        (splice-skip (to_le 8 a) _ (to_le 4 crc') 8 8 (length-to_le 8 a)
          ∙ ap (λ t. to_le 8 a ++ t)
              (splice-skip (to_le 8 b) _ (to_le 4 crc') 8 0 (length-to_le 8 b)
                ∙ ap (λ t. to_le 8 b ++ t)
                    (splice-here (to_le 4 crc) _ (to_le 4 crc')
                      (length-to_le 4 crc ∙ sym (length-to_le 4 crc')))))

-- The header with the times of the segment.
abbrev pub timed : SegmentHeader → ActiveSegment → SegmentHeader
timed h a = record h { min_timestamp_ns = a.min_ts; max_timestamp_ns = a.max_ts }

backfill-parts :
    (crc32c : Bytes → ℕ) (a : ActiveSegment) (dir : Dir) (h : SegmentHeader)
    (last_hash rest : Bytes)
    → length h.hash_init ≡ 32
    → length last_hash ≡ 32
    → content_of a.path dir ≡ serialize crc32c h last_hash ++ rest
    → (dir' : Dir) × (backfill_header_ts crc32c a dir ≡ (ok tt, dir'))
      × (content_of a.path dir' ≡ serialize crc32c (timed h a) last_hash ++ rest)
unfolding backfill_header_ts
backfill-parts crc32c a dir h last_hash rest l l' e =
    let min_written = write_at a.path 56 (to_le 8 a.min_ts) dir in
    let max_written = write_at a.path 64 (to_le 8 a.max_ts) min_written in
    let crc = crc32c (checked h) in
    let before = e ∙ serialize-parts crc32c h last_hash rest in
    let first : content_of a.path min_written
        ≡ parts h last_hash a.min_ts h.max_timestamp_ns crc rest =
      content_of-write_at a.path 56 (to_le 8 a.min_ts) dir
      ∙ ap (λ c. splice c 56 (to_le 8 a.min_ts)) before
      ∙ splice-min h last_hash h.min_timestamp_ns h.max_timestamp_ns crc a.min_ts rest l in
    let second : content_of a.path max_written ≡ parts h last_hash a.min_ts a.max_ts crc rest =
      content_of-write_at a.path 64 (to_le 8 a.max_ts) min_written
      ∙ ap (λ c. splice c 64 (to_le 8 a.max_ts)) first
      ∙ splice-max h last_hash a.min_ts h.max_timestamp_ns crc a.max_ts rest l in
    let crc' = crc32c (take 72 (content_of a.path max_written)) in
    let right : crc' ≡ crc32c (checked (timed h a)) =
      ap crc32c (ap (take 72) second ∙ take-parts h last_hash a.min_ts a.max_ts crc rest l) in
    let long : ltb (length (content_of a.path max_written)) 72 ≡ false =
      le→ltb-false (length (content_of a.path max_written)) 72 (
        rw second (
          omega (
            arith,
            length-append (front h) _,
            length-front h l,
            length-append (to_le 8 a.min_ts) _,
            length-append (to_le 8 a.max_ts) _,
            length-to_le 8 a.min_ts,
            length-to_le 8 a.max_ts,
          ))) in
    (
      write_at a.path 72 (to_le 4 crc') max_written,
      rw (backfill_header_ts, long) refl,
      content_of-write_at a.path 72 (to_le 4 crc') max_written
          ∙ ap (λ c. splice c 72 (to_le 4 crc')) second
          ∙ splice-crc h last_hash a.min_ts a.max_ts crc crc' rest l
          ∙ ap (λ k. parts h last_hash a.min_ts a.max_ts k rest) right
          ∙ sym (serialize-parts crc32c (timed h a) last_hash rest),
    )

-- Where the file of a segment begins with a serialized header, and checksums fit 32 bits, sealing it
-- succeeds: its first 128 bytes then read as that header with the times of the segment, and the last
-- hash that it was written with; the checksum is right, and all bytes behind the header are the same.
pub backfill_header_ts-deserialize :
    (crc32c : Bytes → ℕ) (a : ActiveSegment) (dir : Dir) (h : SegmentHeader)
    (last_hash rest : Bytes)
    → ((bs : Bytes) → crc32c bs < 256 ^ 4)
    → IsHeader (timed h a)
    → length last_hash ≡ 32
    → content_of a.path dir ≡ serialize crc32c h last_hash ++ rest
    → (dir' : Dir) × (backfill_header_ts crc32c a dir ≡ (ok tt, dir'))
      × (deserialize crc32c (take 128 (content_of a.path dir'))
          ≡ ok (record (timed h a) { prev_last_hash = last_hash }))
      × (drop 128 (content_of a.path dir') ≡ rest)
backfill_header_ts-deserialize crc32c a dir h last_hash rest small valid l e =
    let done = backfill-parts crc32c a dir h last_hash rest valid.hash_init_in l e in
    let size = length-serialize crc32c (timed h a) last_hash valid.hash_init_in l in
    (
      done.0,
      done.1,
      ap (deserialize crc32c) (
            ap (take 128) done.2
            ∙ take-append 128 (serialize crc32c (timed h a) last_hash) rest size)
          ∙ deserialize-serialize crc32c (timed h a) last_hash small valid l,
      ap (drop 128) done.2 ∙ drop-append 128 (serialize crc32c (timed h a) last_hash) rest size,
    )
