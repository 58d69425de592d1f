-- ===== src/Recovery/Scan/Recovered.antt =====
-- What the scan (logdb/src/recovery.rs) makes of a segment that a crash left behind: whole records,
-- then a part of the next one.
use lv_logdb.Prelude.{
  ℕ, suc, ◌+◌, ◌-◌, ◌%◌, ◌^◌, ◌≤◌, ◌<◌, ◌≡◌, refl, sym, ◌∙◌, List, [], ◌∷◌, ◌++◌, append_assoc,
  Bytes, take, length, ltb, if◌then◌else◌, arith, take-append, take_all, length-append, ◌⊎◌,
  Bool-cases, ltb-false→le, inl, inr, some, length-take,
}
use lv_logdb.Format.{ReadView, record_size, segment_header_size}
use lv_logdb.Format.Record.{IsView, record_bytes}
use lv_logdb.Format.Record.RoundTrip.{length-record_bytes}
use lv_logdb.Recovery.Scan.{Segment, Scan, start, scan_raw, zero_hash}
use lv_logdb.Recovery.Scan.Stored.{step, InPlace}
use lv_logdb.Recovery.Scan.Complete.{stored, after, close, Consecutive, raw_loop-stored}

abbrev pub last_id : ℕ → List ReadView → ℕ
last_id id [] = id
last_id id (v ∷ vs) = last_id v.record_id vs

abbrev pub last_hash_of : Bytes → List ReadView → Bytes
last_hash_of h [] = h
last_hash_of h (v ∷ vs) = last_hash_of v.hash_n vs

module _ (crc32c : Bytes → ℕ) (keyed_hash : Bytes → Bytes → Bytes) (seg : Segment) where
  length-stored :
      (vs : List ReadView) (id : ℕ) (prev : Bytes)
      → Consecutive crc32c keyed_hash seg id prev vs
      → length vs ≤ length (stored crc32c vs)
  unfolding stored
  length-stored [] id prev c = omega arith
  length-stored (v ∷ vs) id prev (e, valid, hash, c) = omega (
    arith,
    length-append (record_bytes crc32c v.record_id v) (stored crc32c vs),
    length-record_bytes crc32c v.record_id v valid,
    length-stored vs _ _ c,
  )

  -- What the records leave in the variables of the loop.
  record IsAfter (s : Scan) (vs : List ReadView) (t : Scan) : Type 0 where
    kept : t.kept ≡ s.kept
    warnings : t.warnings ≡ s.warnings
    offset : t.offset ≡ s.offset + length (stored crc32c vs)
    valid : t.last_valid_offset ≡ s.offset + length (stored crc32c vs)
    count : t.count ≡ s.count + length vs
    sequence : t.last_sequence ≡ last_id s.last_sequence vs
    hash : t.last_hash ≡ last_hash_of s.last_hash vs

  after-IsAfter :
      (vs : List ReadView) (s : Scan) (id : ℕ) (prev : Bytes)
      → s.last_valid_offset ≡ s.offset
      → Consecutive crc32c keyed_hash seg id prev vs
      → IsAfter s vs (after seg s vs)
  unfolding after stored
  after-IsAfter [] s id prev e c = record {
    kept = refl;
    warnings = refl;
    offset = omega arith;
    valid = omega arith;
    count = omega arith;
    sequence = refl;
    hash = refl;
  }
  after-IsAfter (v ∷ vs) s id prev e (_, valid_v, hash_v, c) =
      let ih = after-IsAfter vs (step seg s v) _ _ refl c in
      let size : length (record_bytes crc32c v.record_id v ++ stored crc32c vs)
          ≡ record_size (length v.content) + length (stored crc32c vs) =
        omega (
          arith,
          length-append (record_bytes crc32c v.record_id v) (stored crc32c vs),
          length-record_bytes crc32c v.record_id v valid_v,
        ) in
      record {
        kept = ih.kept;
        warnings = ih.warnings;
        offset = omega (arith, ih.offset);
        valid = omega (arith, ih.valid);
        count = omega (arith, ih.count);
        sequence = ih.sequence;
        hash = ih.hash;
      }

  -- The result of the scan: the file holds the header and the records, and no byte more.
  pub record IsRecovered (header : Bytes) (vs : List ReadView) (n : ℕ) (t : Scan) : Type 0 where
    pub kept : t.kept ≡ header ++ stored crc32c vs
    pub valid : t.last_valid_offset ≡ 128 + length (stored crc32c vs)
    pub count : t.count ≡ length vs
    pub sequence : t.last_sequence ≡ last_id ((seg.base_sequence + 2 ^ 64 - 1) % 2 ^ 64) vs
    pub hash : t.last_hash ≡ last_hash_of zero_hash vs
    pub warned : length t.warnings ≡ (if ltb 0 n then 1 else 0)

  close-IsRecovered :
      (header tail : Bytes) (vs : List ReadView) (t : Scan)
      → length header ≡ 128
      → seg.file ≡ header ++ (stored crc32c vs ++ tail)
      → IsAfter (start seg) vs t
      → IsRecovered header vs (length tail) (close seg (length tail) t)
  unfolding close start
  close-IsRecovered header tail vs t h whole a =
      let size : length (header ++ stored crc32c vs) ≡ 128 + length (stored crc32c vs) =
        omega (arith, length-append header (stored crc32c vs)) in
      let whole' : seg.file ≡ header ++ stored crc32c vs ++ tail =
        whole ∙ sym (append_assoc header (stored crc32c vs) tail) in
      elim (Bool-cases (ltb 0 (length tail))) [
        | inl more ↦ rw more (record {
          kept = rw (a.valid, whole') (take-append (128 + length (stored crc32c vs)) _ tail size);
          valid = a.valid;
          count = omega (arith, a.count);
          sequence = a.sequence;
          hash = a.hash;
          warned = rw a.warnings (rw more);
        })
        | inr less ↦
            let none_left : length tail ≡ 0 = omega (arith, ltb-false→le 0 (length tail) less) in
            rw less (record {
              kept =
                  a.kept
                  ∙ whole'
                  ∙ sym (
                      take_all (128 + length (stored crc32c vs))
                        (header ++ stored crc32c vs ++ tail)
                        (omega (arith, size, length-append (header ++ stored crc32c vs) tail)))
                  ∙ take-append (128 + length (stored crc32c vs)) _ tail size;
              valid = a.valid;
              count = omega (arith, a.count);
              sequence = a.sequence;
              hash = a.hash;
              warned = rw a.warnings (rw less);
            })
      ]

-- A segment that holds a header, records that were written whole with consecutive ids of its shard
-- (and hashes of its chain, where that is on), and the first `n` bytes of one more record, where the
-- ids begin at the segment's base or there is more than one shard: the scan
-- ends and keeps the header and all of the whole records and nothing else; it counts them, and
-- reports the id and the hash of the last one, or of none. It warns exactly when bytes were cut off.
pub scan_raw-IsRecovered :
    (crc32c : Bytes → ℕ) (keyed_hash : Bytes → Bytes → Bytes) (seg : Segment) (header : Bytes)
    (vs : List ReadView) (last : ReadView) (n id : ℕ)
    → ((bs : Bytes) → crc32c bs < 256 ^ 4)
    → length header ≡ segment_header_size
    → seg.file ≡ header ++ (stored crc32c vs ++ take n (record_bytes crc32c last.record_id last))
    → Consecutive crc32c keyed_hash seg id seg.prev_last_hash vs
    → (id ≡ seg.base_sequence) ⊎ (0 < seg.shard_bits)
    → IsView last.record_id last
    → n < record_size (length last.content)
    → (t : Scan) × (scan_raw crc32c keyed_hash seg ≡ some t)
      × IsRecovered crc32c keyed_hash seg header vs n t
unfolding scan_raw
scan_raw-IsRecovered crc32c keyed_hash seg header vs last n id small h whole chain first valid cut =
    let tail = take n (record_bytes crc32c last.record_id last) in
    let size : length tail ≡ n = omega (
      arith,
      length-take n (record_bytes crc32c last.record_id last),
      length-record_bytes crc32c last.record_id last valid,
    ) in
    let few : length vs < suc (length seg.file) = rw whole (
      omega (
        arith,
        length-append header (stored crc32c vs ++ tail),
        length-append (stored crc32c vs) tail,
        length-stored crc32c keyed_hash seg vs id seg.prev_last_hash chain,
      )) in
    (
      close seg n (after seg (start seg) vs),
      raw_loop-stored crc32c keyed_hash seg small last n valid cut vs (suc (length seg.file))
          (start seg) header id few whole (unfold start in h) (placed first)
          (unfold start in chain),
      rw size at (
          close-IsRecovered crc32c keyed_hash seg header tail vs (after seg (start seg) vs) h whole
            (after-IsAfter crc32c keyed_hash seg vs (start seg) id seg.prev_last_hash
              (unfold start in refl) chain)),
    )
  where
    placed : (id ≡ seg.base_sequence) ⊎ (0 < seg.shard_bits) → InPlace seg (start seg) id
    placed (inl e) = inl (unfold start in e)
    placed (inr several) = inr (unfold start in (refl, several))
