-- ===== src/Recovery/Frames/Total.antt =====
-- The scan of a framed segment (logdb/src/recovery.rs) on any bytes, damaged in any way, and any decoding.
use lv_logdb.Prelude.{
  ℕ, zero, suc, ◌+◌, ◌-◌, ◌≤◌, ◌<◌, ◌≡◌, refl, sym, ap, ◌∙◌, Bool, true, false, Option, none, some,
  List, [], ◌∷◌, ◌++◌, Bytes, take, take-take, take-append_le, length-take, length-replicate,
  replicate, slice, int_at, min, length, ltb, ◌||◌, ◌==◌, if_intro, Result, ok, err, bytes_eq,
  length-append, ltb-false→le, arith,
}
use lv_logdb.Format.{segment_header_size}
use lv_logdb.Format.Record.{Record, RecordError}
use lv_logdb.Recovery.Scan.{
  Segment, Scan, Round, stop, next, start, seen, out_of_place, RecoveryWarning,
}
use lv_logdb.Pipeline.Sealer.{blake3_keyed_chain}
use lv_logdb.Recovery.Frames.{
  set_len, torn_at, RecordRound, ended, going, chain_record, take_record, record_round, record_loop,
  end_frame, scan_frame, frame_round, frame_loop, scan_frames,
}

some_warning : (ws : List RecoveryWarning) (w : RecoveryWarning) → ws ++ (w ∷ []) ≡ [] → ⊥
some_warning ws w e =
    let n : length (ws ++ (w ∷ [])) ≡ 0 = ap (λ (u : List RecoveryWarning). length u) e in
    absurd (omega (arith, length-append ws (w ∷ [])))

length-set_len : (n : ℕ) (file : Bytes) → length (set_len n file) ≡ n
length-set_len n file = omega (
  arith,
  length-append (take n file) (replicate (n - length file) 0),
  length-take n file,
  length-replicate {A = ℕ} (n - length file) 0,
)

take-set_len :
    (m n : ℕ) (file : Bytes) → m ≤ n → m ≤ length file → take m (set_len n file) ≡ take m file
take-set_len m n file h l =
    take-append_le m (take n file) _ (omega (arith, length-take n file)) ∙ take-take m n file h

or_false_left : (a b : Bool) → (a || b) ≡ false → a ≡ false
or_false_left true b e = e
or_false_left false b e = refl

or_false_right : (a b : Bool) → (a || b) ≡ false → b ≡ false
or_false_right true b e = absurd (ground arith)
or_false_right false b e = e

module _ (seg : Segment) where
  -- At every moment: the header is as it was, nothing grows beyond the file, and no change goes without a warning.
  pub record IsSound (s : Scan) : Type 0 where
    pub head : take 128 s.kept ≡ take 128 seg.file
    pub kept_from : 128 ≤ length s.kept
    pub kept_in : length s.kept ≤ length seg.file
    pub valid_from : 128 ≤ s.last_valid_offset
    pub valid_in : s.last_valid_offset ≤ length seg.file
    pub told : s.warnings ≡ [] → s.kept ≡ seg.file

  -- At the end.
  pub record IsClosed (t : Scan) : Type 0 where
    pub sound : IsSound t
    pub all_valid : t.warnings ≡ [] → t.last_valid_offset ≡ length seg.file

  torn_at-IsSound : (s : Scan) → IsSound s → IsSound (torn_at seg s)
  unfolding torn_at
  torn_at-IsSound s i =
      let size = length-set_len s.last_valid_offset s.kept in
      record {
        head = take-set_len 128 s.last_valid_offset s.kept i.valid_from i.kept_from ∙ i.head;
        kept_from = omega (arith, i.valid_from);
        kept_in = omega (arith, i.valid_in);
        valid_from = i.valid_from;
        valid_in = i.valid_in;
        told = λ e. absurd (some_warning s.warnings _ e);
      }

  torn_at-IsClosed : (s : Scan) → IsSound s → IsClosed (torn_at seg s)
  unfolding torn_at
  torn_at-IsClosed s i = record {
    sound = torn_at-IsSound s i;
    all_valid = λ e. absurd (some_warning s.warnings _ e);
  }

  -- What a round over a frame leaves.
  abbrev AfterRecord : ℕ → ℕ → RecordRound → Type 0
  AfterRecord doff valid_len (ended frame_ok t) = IsSound t
  AfterRecord doff valid_len (going doff' t) = IsSound t × (doff < doff') × (doff' ≤ valid_len)

  -- What a round over the frames leaves.
  abbrev AfterFrame : ℕ → Option Round → Type 0
  AfterFrame from none = ⊥
  AfterFrame from (some (stop t)) = IsClosed t
  AfterFrame from (some (next t)) =
      IsSound t
      × (t.last_valid_offset ≡ t.offset)
      × (from < t.offset)
      × (t.offset ≤ length seg.file)

  -- The fields that count play no part.
  recount :
      (s t : Scan)
      → t.kept ≡ s.kept
      → t.last_valid_offset ≡ s.last_valid_offset
      → t.warnings ≡ s.warnings
      → IsSound s
      → IsSound t
  recount s t k v w i = record {
    head = ap (take 128) k ∙ i.head;
    kept_from = rw k i.kept_from;
    kept_in = rw k i.kept_in;
    valid_from = rw v i.valid_from;
    valid_in = rw v i.valid_in;
    told = λ e. k ∙ i.told (sym w ∙ e);
  }

  module _ (crc32c : Bytes → ℕ) (keyed_hash : Bytes → Bytes → Bytes) where
    chain_record-AfterRecord :
        (s : Scan) (r : Record) (doff doff' valid_len : ℕ)
        → IsSound s
        → doff < doff'
        → doff' ≤ valid_len
        → AfterRecord doff valid_len (chain_record crc32c keyed_hash seg s r doff')
    unfolding chain_record
    chain_record-AfterRecord s r doff doff' valid_len i less fits =
        if_intro (AfterRecord doff valid_len) seg.hash_enabled
          (λ _.
            if_intro (AfterRecord doff valid_len)
              (bytes_eq (blake3_keyed_chain keyed_hash seg.chain_key s.chain_prev r.content)
                r.hash_n)
              (λ _. (recount s _ refl refl refl i, less, fits))
              (λ _. torn_at-IsSound _ (record {
                head = i.head;
                kept_from = i.kept_from;
                kept_in = i.kept_in;
                valid_from = i.valid_from;
                valid_in = i.valid_in;
                told = λ e. absurd (some_warning s.warnings _ e);
              })))
          (λ _. (recount s _ refl refl refl i, less, fits))

    take_record-AfterRecord :
        (s : Scan) (r : Record) (doff doff' valid_len : ℕ)
        → IsSound s
        → doff < doff'
        → doff' ≤ valid_len
        → AfterRecord doff valid_len (take_record crc32c keyed_hash seg s r doff')
    unfolding take_record
    take_record-AfterRecord s r doff doff' valid_len i less fits =
        if_intro (AfterRecord doff valid_len) (out_of_place seg s r) (λ _. i)
          (λ _.
            chain_record-AfterRecord (seen s r) r doff doff' valid_len
              (recount s (seen s r) refl refl refl i) less fits)

    record_round-AfterRecord :
        (decoded : Bytes) (valid_len doff : ℕ) (s : Scan)
        → IsSound s
        → AfterRecord doff valid_len (record_round crc32c keyed_hash seg decoded valid_len doff s)
    unfolding record_round
    record_round-AfterRecord decoded valid_len doff s i =
        let total = int_at 4 decoded doff in
        if_intro (AfterRecord doff valid_len) (ltb valid_len (doff + 60)) (λ _. i)
          (λ _.
            if_intro (AfterRecord doff valid_len) (ltb total 60 || ltb valid_len (doff + total))
              (λ _. i)
              (λ fits.
                read total (ltb-false→le total 60 (or_false_left _ _ fits))
                  (ltb-false→le valid_len (doff + total) (or_false_right (ltb total 60) _ fits)) _))
      where
        read :
            (total : ℕ)
            → 60 ≤ total
            → doff + total ≤ valid_len
            → (d : Result RecordError (Record × ℕ))
            → AfterRecord doff valid_len (elim d [
              | ok done ↦ take_record crc32c keyed_hash seg s done.0 (doff + total)
              | err e ↦ ended false s
            ])
        read total big fits (ok done) =
            take_record-AfterRecord s done.0 doff (doff + total) valid_len i (omega arith) fits
        read total big fits (err e) = i

    -- A loop over a frame returns.
    abbrev ReturnsSound : Option (Bool × Scan) → Type 0
    ReturnsSound none = ⊥
    ReturnsSound (some (frame_ok, t)) = IsSound t

    record_loop-ReturnsSound :
        (fuel : ℕ) (decoded : Bytes) (valid_len doff : ℕ) (s : Scan)
        → valid_len < doff + fuel
        → doff ≤ valid_len
        → IsSound s
        → ReturnsSound (record_loop crc32c keyed_hash seg fuel decoded valid_len doff s)
    unfolding record_loop
    record_loop-ReturnsSound zero decoded valid_len doff s enough inside i = absurd (omega arith)
    record_loop-ReturnsSound (suc fuel) decoded valid_len doff s enough inside i =
        follow (record_round crc32c keyed_hash seg decoded valid_len doff s)
          (record_round-AfterRecord decoded valid_len doff s i)
          (record_loop-ReturnsSound fuel decoded valid_len)
      where
        follow :
            (r : RecordRound)
            → AfterRecord doff valid_len r
            → ((doff' : ℕ) (u : Scan)
                → valid_len < doff' + fuel
                → doff' ≤ valid_len
                → IsSound u
                → ReturnsSound (record_loop crc32c keyed_hash seg fuel decoded valid_len doff' u))
            → ReturnsSound (elim r as (λ k. Option (Bool × Scan)) [
              | ended frame_ok t ↦ some (frame_ok, t)
              | going doff' t ↦ record_loop crc32c keyed_hash seg fuel decoded valid_len doff' t
            ])
        follow (ended frame_ok t) j ih = j
        follow (going doff' t) (j, less, fits) ih = ih doff' t (omega arith) fits j

    end_frame-AfterFrame :
        (from frame_end : ℕ) (r : Option (Bool × Scan))
        → from < frame_end
        → 128 ≤ frame_end
        → frame_end ≤ length seg.file
        → ReturnsSound r
        → AfterFrame from (end_frame crc32c keyed_hash seg frame_end r)
    end_frame-AfterFrame from frame_end none less low fits i = i
    end_frame-AfterFrame from frame_end (some (false, t)) less low fits i = torn_at-IsClosed t i
    end_frame-AfterFrame from frame_end (some (true, t)) less low fits i = (
      record {
        head = i.head;
        kept_from = i.kept_from;
        kept_in = i.kept_in;
        valid_from = low;
        valid_in = fits;
        told = i.told;
      },
      refl,
      less,
      fits,
    )

    module _ (decode : Bytes → Option Bytes) where
      scan_frame-AfterFrame :
          (dl frame_end : ℕ) (s : Scan) (d : Option Bytes)
          → s.offset < frame_end
          → 128 ≤ frame_end
          → frame_end ≤ length seg.file
          → IsSound s
          → AfterFrame s.offset (scan_frame crc32c keyed_hash seg decode dl frame_end s d)
      scan_frame-AfterFrame dl frame_end s none less low fits i = torn_at-IsClosed s i
      scan_frame-AfterFrame dl frame_end s (some decoded) less low fits i =
          let valid_len = min dl (length decoded) in
          end_frame-AfterFrame s.offset frame_end _ less low fits (
            record_loop-ReturnsSound (suc valid_len) decoded valid_len 0 s (omega arith)
              (omega arith) i)

      frame_round-AfterFrame :
          (s : Scan)
          → 128 ≤ s.offset
          → IsSound s
          → AfterFrame s.offset (frame_round crc32c keyed_hash seg decode s)
      unfolding frame_round
      frame_round-AfterFrame s low i =
          let cl = int_at 4 s.kept s.offset in
          let dl = int_at 4 s.kept (s.offset + 4) in
          let at = s.offset + 8 in
          if_intro (AfterFrame s.offset) (ltb (length seg.file) at || ltb (length s.kept) at)
            (λ _. torn_at-IsClosed s i)
            (λ _.
              if_intro (AfterFrame s.offset)
                (cl == 0
                  || dl == 0
                  || ltb (length seg.file) (at + cl)
                  || ltb (length s.kept) (at + cl))
                (λ _. torn_at-IsClosed s i)
                (λ fits.
                  scan_frame-AfterFrame dl (at + cl) s (decode (slice s.kept at (at + cl)))
                    (omega arith) (omega arith)
                    (ltb-false→le _ _ (or_false_right _ _ (or_false_left _ _ fits))) i))

      frame_loop-IsClosed :
          (fuel : ℕ) (s : Scan)
          → length seg.file < s.offset + fuel
          → 128 ≤ s.offset
          → s.offset ≤ length seg.file
          → s.last_valid_offset ≡ s.offset
          → IsSound s
          → (t : Scan) × (frame_loop crc32c keyed_hash seg decode fuel s ≡ some t) × IsClosed t
      unfolding frame_loop
      frame_loop-IsClosed zero s enough low inside valid i = absurd (omega arith)
      frame_loop-IsClosed (suc fuel) s enough low inside valid i =
          if_intro (λ r. (t : Scan) × (r ≡ some t) × IsClosed t) (ltb s.offset (length seg.file))
            (λ _.
              follow (frame_round crc32c keyed_hash seg decode s) (frame_round-AfterFrame s low i)
                (frame_loop-IsClosed fuel))
            (λ over. (
              s,
              refl,
              record {
                sound = i;
                all_valid = λ _. omega (arith, ltb-false→le s.offset (length seg.file) over);
              },
            ))
        where
          follow :
              (r : Option Round)
              → AfterFrame s.offset r
              → ((t : Scan)
                  → length seg.file < t.offset + fuel
                  → 128 ≤ t.offset
                  → t.offset ≤ length seg.file
                  → t.last_valid_offset ≡ t.offset
                  → IsSound t
                  → (u : Scan) × (frame_loop crc32c keyed_hash seg decode fuel t ≡ some u)
                    × IsClosed u)
              → (u : Scan) × (elim r as (λ k. Option Scan) [
                | none ↦ none
                | some (stop t) ↦ some t
                | some (next t) ↦ frame_loop crc32c keyed_hash seg decode fuel t
              ]
                  ≡ some u)
                × IsClosed u
          follow none wrong ih = absurd wrong
          follow (some (stop t)) closed ih = (t, refl, closed)
          follow (some (next t)) (j, valid', less, fits) ih =
              ih t (omega arith) (omega arith) fits valid' j

-- On a file with a whole header, whatever stands behind it and however its frames are decoded, the scan of a
-- compressed or encrypted segment ends. The file is then no longer than it was and begins with the same header, and
-- the last valid offset lies inside what the file was. Where no warning is reported, the file is the same and all of it
-- is valid.
pub scan_frames-IsClosed :
    (crc32c : Bytes → ℕ) (keyed_hash : Bytes → Bytes → Bytes) (seg : Segment)
    (decode : Bytes → Option Bytes)
    → segment_header_size ≤ length seg.file
    → (t : Scan) × (scan_frames crc32c keyed_hash seg decode ≡ some t) × IsClosed seg t
unfolding scan_frames start
scan_frames-IsClosed crc32c keyed_hash seg decode h =
    frame_loop-IsClosed seg crc32c keyed_hash decode (suc (length seg.file)) (start seg)
      (omega arith) (omega arith) h refl
      (record {
        head = refl;
        kept_from = h;
        kept_in = omega arith;
        valid_from = omega arith;
        valid_in = h;
        told = λ _. refl;
      })
