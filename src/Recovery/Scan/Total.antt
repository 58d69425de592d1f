-- ===== src/Recovery/Scan/Total.antt =====
-- The scan of a raw segment (logdb/src/recovery.rs) on any bytes, damaged in any way.
use lv_logdb.Prelude.{
  ℕ, zero, suc, ◌+◌, ◌≤◌, ◌<◌, ◌≡◌, refl, sym, ◌⊎◌, inl, inr, some, Bytes, take, int_at, length,
  ltb, leb, if_intro, Result, ◌∙◌, ltb-false→le, arith, ok, err, take_all, bytes_eq,
}
use native.Mathlib.Decide.{dec_lt}
use lv_logdb.Format.{segment_header_size, min_record_size}
use lv_logdb.Format.Record.{Record, RecordError}
use lv_logdb.Recovery.Scan.{
  Segment, Scan, Round, stop, next, start, torn, advance, check_chain, accept, reject, raw_round,
  raw_loop, scan_raw, seen, out_of_place,
}

module _ (seg : Segment) where
  -- Between two rounds.
  pub record IsGood (s : Scan) : Type 0 where
    pub whole : s.kept ≡ seg.file
    pub valid_le : s.last_valid_offset ≤ s.offset
    pub inside : s.offset ≤ length seg.file
    pub at_end : (s.offset < length seg.file) ⊎ (s.offset ≡ s.last_valid_offset)

  -- At the end: the file is what stands before the last valid offset.
  pub record IsDone (t : Scan) : Type 0 where
    pub cut : t.kept ≡ take t.last_valid_offset seg.file
    pub valid_in : t.last_valid_offset ≤ length seg.file

  abbrev After : ℕ → Round → Type 0
  After from (stop t) = IsDone t
  After from (next t) = IsGood t × (from < t.offset)

  torn-After :
      (from : ℕ) (s : Scan) → s.last_valid_offset ≤ length seg.file → After from (torn seg s)
  unfolding torn
  torn-After from s h = record { cut = refl; valid_in = h }

  module _ (crc32c : Bytes → ℕ) (keyed_hash : Bytes → Bytes → Bytes) where
    advance-After :
        (s : Scan) (r : Record) (total : ℕ)
        → s.kept ≡ seg.file
        → s.offset + total ≤ length seg.file
        → 60 ≤ total
        → After s.offset (advance crc32c keyed_hash seg s r total)
    unfolding advance
    advance-After s r total w h p =
        (record { whole = w; valid_le = omega arith; inside = h; at_end = inr refl }, omega arith)

    check_chain-After :
        (s : Scan) (r : Record) (total : ℕ)
        → s.kept ≡ seg.file
        → s.last_valid_offset ≤ s.offset
        → s.offset + total ≤ length seg.file
        → 60 ≤ total
        → After s.offset (check_chain crc32c keyed_hash seg s r total)
    unfolding check_chain
    check_chain-After s r total w l h p =
        if_intro (After s.offset) seg.hash_enabled
          (λ _.
            if_intro (After s.offset) (bytes_eq _ r.hash_n)
              (λ _. advance-After (record s { chain_prev = r.hash_n }) r total w h p)
              (λ _. torn-After s.offset _ (omega arith)))
          (λ _. advance-After s r total w h p)

    accept-After :
        (s : Scan) (r : Record) (total : ℕ)
        → s.kept ≡ seg.file
        → s.last_valid_offset ≤ s.offset
        → s.offset + total ≤ length seg.file
        → 60 ≤ total
        → After s.offset (accept crc32c keyed_hash seg s r total)
    unfolding accept
    accept-After s r total w l h p =
        if_intro (After s.offset) (out_of_place seg s r) (λ _. torn-After s.offset s (omega arith))
          (λ _. check_chain-After (seen s r) r total w l h p)

    reject-After :
        (s : Scan) (total : ℕ)
        → s.kept ≡ seg.file
        → s.last_valid_offset ≤ s.offset
        → s.offset + total ≤ length seg.file
        → 60 ≤ total
        → After s.offset (reject crc32c keyed_hash seg s total)
    unfolding reject
    reject-After s total w l h p =
        if_intro (After s.offset) (leb (length seg.file) (s.offset + total))
          (λ _. torn-After s.offset s (omega arith))
          (λ more. (
            record { whole = w; valid_le = omega arith; inside = h; at_end = inl (ground arith) },
            omega arith,
          ))

    -- A round that goes on has moved forward, and none leaves the file uncut behind a tear.
    raw_round-After : (s : Scan) → IsGood s → After s.offset (raw_round crc32c keyed_hash seg s)
    unfolding raw_round
    raw_round-After s g =
        let total = int_at 4 seg.file s.offset in
        if_intro (After s.offset) (ltb (length seg.file) (s.offset + 4))
          (λ _. torn-After s.offset s (omega arith))
          (λ _.
            if_intro (After s.offset) (ltb total min_record_size)
              (λ _. torn-After s.offset s (omega arith))
              (λ big.
                if_intro (After s.offset) (ltb (length seg.file) (s.offset + total))
                  (λ _. torn-After s.offset s (omega arith))
                  (λ fits. read total (ltb-false→le total 60 big) (ltb-false→le _ _ fits) _)))
      where
        read :
            (total : ℕ)
            → 60 ≤ total
            → s.offset + total ≤ length seg.file
            → (d : Result RecordError (Record × ℕ))
            → After s.offset (elim d [
              | ok done ↦ accept crc32c keyed_hash seg s done.0 total
              | err e ↦ reject crc32c keyed_hash seg s total
            ])
        read total p h (ok done) = accept-After s done.0 total g.whole g.valid_le h p
        read total p h (err e) = reject-After s total g.whole g.valid_le h p

    raw_loop-IsDone :
        (fuel : ℕ) (s : Scan)
        → length seg.file < s.offset + fuel
        → IsGood s
        → (t : Scan) × (raw_loop crc32c keyed_hash seg fuel s ≡ some t) × IsDone t
    unfolding raw_loop
    raw_loop-IsDone zero s enough g = absurd (omega (arith, g.inside))
    raw_loop-IsDone (suc fuel) s enough g =
        if_intro (λ r. (t : Scan) × (r ≡ some t) × IsDone t) (ltb s.offset (length seg.file))
          (λ _.
            follow (raw_round crc32c keyed_hash seg s) (raw_round-After s g) (raw_loop-IsDone fuel))
          (λ over. (s, refl, finish (ltb-false→le _ _ over) g.at_end))
      where
        follow :
            (r : Round)
            → After s.offset r
            → ((t : Scan)
                → length seg.file < t.offset + fuel
                → IsGood t
                → (u : Scan) × (raw_loop crc32c keyed_hash seg fuel t ≡ some u) × IsDone u)
            → (u : Scan) × (elim r [
              | stop t ↦ some t
              | next t ↦ raw_loop crc32c keyed_hash seg fuel t
            ]
                ≡ some u)
              × IsDone u
        follow (stop t) done ih = (t, refl, done)
        follow (next t) (good, further) ih = ih t (omega arith) good

        finish :
            length seg.file ≤ s.offset
            → (s.offset < length seg.file) ⊎ (s.offset ≡ s.last_valid_offset)
            → IsDone s
        finish h (inl less) = absurd (omega arith)
        finish h (inr e) = record {
          cut = g.whole ∙ sym (take_all s.last_valid_offset seg.file (omega arith));
          valid_in = omega (arith, g.inside);
        }

-- On a file with a whole header, whatever stands behind it, the scan ends, the last valid offset
-- lies inside the file, and the file is cut to exactly the bytes before that offset: nothing is
-- rewritten, and no byte behind the last valid record stays.
pub scan_raw-IsDone :
    (crc32c : Bytes → ℕ) (keyed_hash : Bytes → Bytes → Bytes) (seg : Segment)
    → segment_header_size ≤ length seg.file
    → (t : Scan) × (scan_raw crc32c keyed_hash seg ≡ some t) × IsDone seg t
unfolding scan_raw start
scan_raw-IsDone crc32c keyed_hash seg h =
    raw_loop-IsDone seg crc32c keyed_hash (suc (length seg.file)) (start seg) (omega arith)
      (record {
        whole = refl;
        valid_le = omega arith;
        inside = h;
        at_end = first (dec_lt 128 (length seg.file));
      })
  where
    first : Dec (128 < length seg.file) → (128 < length seg.file) ⊎ ◌≡◌ {A = ℕ} 128 128
    first (yes l) = inl l
    first (no _) = inr refl
