-- ===== src/Recovery/Frames/Recovered.antt =====
-- What the scan (logdb/src/recovery.rs) makes of a framed segment that a crash left behind: whole frames, then a
-- part of the next one.
use lv_logdb.Prelude.{
  ℕ, suc, ◌+◌, ◌-◌, ◌%◌, ◌^◌, ◌≤◌, ◌<◌, ◌≡◌, ◌⊎◌, refl, sym, ap, ◌∙◌, subst, inl, inr, Bool, true,
  false, Option, some, List, [], ◌∷◌, ◌++◌, append_assoc, append-nil, Bytes, take, take-append,
  length-take, length, All, ltb, ◌||◌, if◌then◌else◌, arith, length-append, ltb-false→le,
  Bool-cases,
}
use lv_logdb.Format.{segment_header_size}
use lv_logdb.Recovery.Scan.{Segment, Scan, start, zero_hash}
use lv_logdb.Recovery.Scan.Stored.{InPlace}
use lv_logdb.Recovery.Scan.Complete.{Consecutive}
use lv_logdb.Recovery.Scan.Recovered.{last_id, last_hash_of}
use lv_logdb.Recovery.Frames.{torn_at, set_len, scan_frames, scan_last_segment}
use lv_logdb.Recovery.Frames.Layout.{
  Frame, views_of, IsRead, frame_bytes, frames, IsFrame, length-frame_bytes,
}
use lv_logdb.Recovery.Frames.Loop.{close_frames, frame_loop-frames}

set_len-append : (xs ys : Bytes) (n : ℕ) → length xs ≡ n → set_len n (xs ++ ys) ≡ xs
set_len-append xs ys n e =
    let none_more : n - length (xs ++ ys) ≡ 0 = omega (arith, length-append xs ys) in
    rw (none_more, take-append n xs ys e, append-nil)

module _ (crc32c : Bytes → ℕ) (keyed_hash : Bytes → Bytes → Bytes) (seg : Segment)
    (decode : Bytes → Option Bytes) where
  -- The result of the scan: the file holds the header and the frames, and no byte more.
  pub record IsRecovered (header : Bytes) (fs : List Frame) (n : ℕ) (t : Scan) : Type 0 where
    pub kept : t.kept ≡ header ++ frames crc32c fs
    pub valid : t.last_valid_offset ≡ 128 + length (frames crc32c fs)
    pub count : t.count ≡ length (views_of fs)
    pub sequence :
        t.last_sequence ≡ last_id ((seg.base_sequence + 2 ^ 64 - 1) % 2 ^ 64) (views_of fs)
    pub hash : t.last_hash ≡ last_hash_of zero_hash (views_of fs)
    pub warned : length t.warnings ≡ (if ltb 0 n then 1 else 0)

  length-le-frames : (fs : List Frame) → length fs ≤ length (frames crc32c fs)
  length-le-frames [] = omega arith
  length-le-frames (f ∷ fs) = omega (
    arith,
    length-append (frame_bytes crc32c f) (frames crc32c fs),
    length-frame_bytes crc32c f,
    length-le-frames fs,
  )

  close_frames-IsRecovered :
      (header tail : Bytes) (fs : List Frame) (t : Scan)
      → length header ≡ 128
      → seg.file ≡ header ++ (frames crc32c fs ++ tail)
      → IsRead (start seg) (views_of fs) t
      → t.last_valid_offset ≡ 128 + length (frames crc32c fs)
      → IsRecovered header fs (length tail) (close_frames seg (length tail) t)
  unfolding start torn_at
  close_frames-IsRecovered header tail fs t h whole r valid =
      let size : length (header ++ frames crc32c fs) ≡ 128 + length (frames crc32c fs) =
        omega (arith, length-append header (frames crc32c fs)) in
      let whole' : seg.file ≡ header ++ frames crc32c fs ++ tail =
        whole ∙ sym (append_assoc header (frames crc32c fs) tail) in
      elim (Bool-cases (ltb 0 (length tail))) [
        | inl more ↦ rw more (record {
          kept =
              ap (λ n. set_len n t.kept) valid
              ∙ ap (set_len (128 + length (frames crc32c fs))) (r.kept ∙ whole')
              ∙ set_len-append (header ++ frames crc32c fs) tail _ size;
          valid = valid;
          count = omega (arith, r.count);
          sequence = r.sequence;
          hash = r.hash;
          warned = rw r.warnings (rw more);
        })
        | inr less ↦
            let none_left : tail ≡ [] = empty tail less in
            rw less (record {
              kept =
                  r.kept
                  ∙ whole'
                  ∙ ap (λ u. header ++ frames crc32c fs ++ u) none_left
                  ∙ append-nil (header ++ frames crc32c fs);
              valid = valid;
              count = omega (arith, r.count);
              sequence = r.sequence;
              hash = r.hash;
              warned = rw r.warnings (rw less);
            })
      ]
    where
      empty : (u : Bytes) → ltb 0 (length u) ≡ false → u ≡ []
      empty [] e = refl
      empty (x ∷ u) e = absurd (omega (arith, ltb-false→le 0 (length (x ∷ u)) e))

-- A compressed or encrypted segment that holds a header, frames that were written whole, with records of consecutive
-- ids of its shard (and hashes of its chain, where that is on), and the first `n` bytes of one more frame, where the
-- payload of each frame gives back its records and the ids begin at the segment's base or there is more than one
-- shard: the scan ends and keeps the header and all of the whole frames and
-- nothing else; it counts their records, and reports the id and the hash of the last one, or of none. It warns
-- exactly when bytes were cut off.
pub scan_last_segment-IsRecovered :
    (crc32c : Bytes → ℕ) (keyed_hash : Bytes → Bytes → Bytes) (seg : Segment)
    (decode : Bytes → Option Bytes) (is_compressed is_encrypted : Bool) (header : Bytes)
    (fs : List Frame) (last : Frame) (n id : ℕ)
    → ((bs : Bytes) → crc32c bs < 256 ^ 4)
    → (is_compressed || is_encrypted) ≡ true
    → length header ≡ segment_header_size
    → seg.file ≡ header ++ (frames crc32c fs ++ take n (frame_bytes crc32c last))
    → All (IsFrame crc32c decode) fs
    → Consecutive crc32c keyed_hash seg id seg.prev_last_hash (views_of fs)
    → (id ≡ seg.base_sequence) ⊎ (0 < seg.shard_bits)
    → IsFrame crc32c decode last
    → n < 8 + length last.payload
    → (t : Scan) × (scan_last_segment crc32c keyed_hash seg decode is_compressed is_encrypted
        ≡ some t)
      × IsRecovered crc32c keyed_hash seg decode header fs n t
unfolding scan_frames start
scan_last_segment-IsRecovered crc32c keyed_hash seg decode is_compressed is_encrypted header fs last
      n id small framed h whole good chain first valid cut =
    let tail = take n (frame_bytes crc32c last) in
    let size : length tail ≡ n =
      omega (arith, length-take n (frame_bytes crc32c last), length-frame_bytes crc32c last) in
    let few : length fs < suc (length seg.file) = rw whole (
      omega (
        arith,
        length-append header (frames crc32c fs ++ tail),
        length-append (frames crc32c fs) tail,
        length-le-frames crc32c keyed_hash seg decode fs,
      )) in
    let (t, returned, read, at) =
      frame_loop-frames crc32c keyed_hash seg decode small last n valid cut fs
        (suc (length seg.file)) (start seg) header few whole h refl refl good
        (id, placed first, chain) in
    (
      close_frames seg n t,
      rw framed returned,
      subst (λ m. IsRecovered crc32c keyed_hash seg decode header fs m (close_frames seg m t)) size
          (close_frames-IsRecovered crc32c keyed_hash seg decode header tail fs t h whole read at),
    )
  where
    placed : (id ≡ seg.base_sequence) ⊎ (0 < seg.shard_bits) → InPlace seg (start seg) id
    placed (inl e) = inl e
    placed (inr several) = inr (refl, several)
