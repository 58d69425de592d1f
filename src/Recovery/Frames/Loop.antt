-- ===== src/Recovery/Frames/Loop.antt =====
-- The loop over the frames (logdb/src/recovery.rs) of a segment of whole frames and a part of one more.
use lv_logdb.Prelude.{
  ℕ, zero, suc, ◌+◌, ◌^◌, ◌≤◌, ◌<◌, ◌≡◌, refl, sym, ap, ◌∙◌, inl, inr, Option, some, List, [], ◌∷◌,
  ◌++◌, append_assoc, Bytes, to_le, from_le, from_le-to_le, length-to_le, int_at, slice-append,
  take, take-append, take-take, length-take, length, All, min, ltb, ne→==-false, if◌then◌else◌,
  arith, length-append, le→ltb-false, lt→ltb, ltb→lt, ltb-false→le, Bool-cases,
}
use lv_logdb.Format.{ReadView}
use lv_logdb.Format.Record.{record_bytes}
use lv_logdb.Format.Record.RoundTrip.{length-record_bytes}
use lv_logdb.Recovery.Scan.{Segment, Scan, next, stop}
use lv_logdb.Recovery.Scan.Complete.{stored, Consecutive}
use lv_logdb.Recovery.Frames.{torn_at, frame_round, frame_loop}
use lv_logdb.Recovery.Frames.Stored.{read_all, Follows, Follows-read_all, record_loop-from}
use lv_logdb.Recovery.Frames.Layout.{
  Frame, views_of, IsRead, read_all-IsRead, IsRead-append, or_true, frame_bytes, frames, IsFrame,
  length-frame_bytes, frame_at,
}

-- The state once a frame is read.
abbrev frame_step : Segment → Scan → Frame → Scan
frame_step seg s f = record (read_all seg s f.views) {
  last_valid_offset = s.offset + 8 + length f.payload;
  offset = s.offset + 8 + length f.payload;
}

-- The state at the end, where `n` bytes stand behind the last whole frame.
abbrev pub close_frames : Segment → ℕ → Scan → Scan
close_frames seg n t = if ltb 0 n then torn_at seg t else t

min_self : (n : ℕ) → min n n ≡ n
min_self n = omega arith

module _ (crc32c : Bytes → ℕ) (keyed_hash : Bytes → Bytes → Bytes) (seg : Segment)
    (decode : Bytes → Option Bytes) (small : (bs : Bytes) → crc32c bs < 256 ^ 4) where
  length-le-stored :
      (vs ws : List ReadView) (id : ℕ) (prev : Bytes)
      → Consecutive crc32c keyed_hash seg id prev (vs ++ ws)
      → length vs ≤ length (stored crc32c vs)
  unfolding stored
  length-le-stored [] ws id prev c = omega arith
  length-le-stored (v ∷ vs) ws id prev (e, valid, hash, c) = omega (
    arith,
    length-append (record_bytes crc32c v.record_id v) (stored crc32c vs),
    length-record_bytes crc32c v.record_id v valid,
    length-le-stored vs ws _ _ c,
  )

  -- A round at a whole frame reads its records.
  frame_round-whole :
      (s : Scan) (f : Frame) (ws : List ReadView) (pre rest : Bytes)
      → s.kept ≡ seg.file
      → seg.file ≡ pre ++ (frame_bytes crc32c f ++ rest)
      → length pre ≡ s.offset
      → IsFrame crc32c decode f
      → Follows crc32c keyed_hash seg s (f.views ++ ws)
      → frame_round crc32c keyed_hash seg decode s ≡ some (next (frame_step seg s f))
  unfolding frame_round
  frame_round-whole s f ws pre rest kept whole here v follows =
      let (cl, dl, payload, long) =
        frame_at crc32c decode f s.kept pre rest s.offset (kept ∙ whole) here v in
      let same : length s.kept ≡ length seg.file = ap (λ (b : Bytes). length b) kept in
      let few = length-le-stored f.views ws follows.0 s.chain_prev follows.2 in
      rw
        (
          le→ltb-false (length seg.file) (s.offset + 8) (omega arith),
          le→ltb-false (length s.kept) (s.offset + 8) (omega arith),
          cl,
          dl,
          ne→==-false (length f.payload) 0 (λ e. absurd (omega (arith, v.some_payload))),
          ne→==-false (length (stored crc32c f.views)) 0
              (λ e. absurd (omega (arith, v.some_records))),
          le→ltb-false (length seg.file) (s.offset + 8 + length f.payload) (omega arith),
          le→ltb-false (length s.kept) (s.offset + 8 + length f.payload) long,
          payload,
          v.decoded,
          min_self (length (stored crc32c f.views)),
          record_loop-from crc32c keyed_hash seg small f.views ws
              (suc (length (stored crc32c f.views))) s (stored crc32c f.views) [] 0 (omega arith)
              refl refl follows,
        )
        refl

  frame_loop-whole :
      (fuel : ℕ) (s : Scan) (f : Frame) (ws : List ReadView) (pre rest : Bytes)
      → s.kept ≡ seg.file
      → seg.file ≡ pre ++ (frame_bytes crc32c f ++ rest)
      → length pre ≡ s.offset
      → IsFrame crc32c decode f
      → Follows crc32c keyed_hash seg s (f.views ++ ws)
      → frame_loop crc32c keyed_hash seg decode (suc fuel) s
        ≡ frame_loop crc32c keyed_hash seg decode fuel (frame_step seg s f)
  unfolding frame_loop
  frame_loop-whole fuel s f ws pre rest kept whole here v follows =
      let long : s.offset < length seg.file = rw whole (
        omega (
          arith,
          length-append pre (frame_bytes crc32c f ++ rest),
          length-append (frame_bytes crc32c f) rest,
          length-frame_bytes crc32c f,
        )) in
      rw
        (
          lt→ltb s.offset (length seg.file) long,
          frame_round-whole s f ws pre rest kept whole here v follows,
        )
        refl

  module _ (last : Frame) (n : ℕ) (v : IsFrame crc32c decode last)
      (cut : n < 8 + length last.payload) where
    abbrev tail : Bytes
    tail = take n (frame_bytes crc32c last)

    length-tail : length tail ≡ n
    length-tail =
        omega (arith, length-take n (frame_bytes crc32c last), length-frame_bytes crc32c last)

    -- A round at the frame cut short tears, if there is a byte of it.
    frame_round-tail :
        (s : Scan) (pre : Bytes)
        → s.kept ≡ seg.file
        → seg.file ≡ pre ++ tail
        → length pre ≡ s.offset
        → frame_round crc32c keyed_hash seg decode s ≡ some (stop (torn_at seg s))
    unfolding frame_round
    frame_round-tail s pre kept whole here =
        let same : length s.kept ≡ length seg.file = ap (λ (b : Bytes). length b) kept in
        let size : length seg.file ≡ s.offset + n =
          rw whole (omega (arith, length-append pre tail, length-tail)) in
        elim (Bool-cases (ltb (length seg.file) (s.offset + 8))) [
          | inl short ↦ rw short refl
          | inr long ↦
              let eight : 8 ≤ n =
                omega (arith, ltb-false→le (length seg.file) (s.offset + 8) long) in
              let head = to_le 4 (length last.payload) in
              let cl : int_at 4 s.kept s.offset ≡ length last.payload =
                ap (λ b. int_at 4 b s.offset) (kept ∙ whole)
                ∙ ap from_le (
                    slice-append pre tail s.offset 4 here
                    ∙ take-take 4 n (frame_bytes crc32c last) (omega arith)
                    ∙ take-append 4 head _ (length-to_le 4 (length last.payload)))
                ∙ from_le-to_le 4 (length last.payload) v.payload_in in
              rw
                (
                  long,
                  le→ltb-false (length s.kept) (s.offset + 8) (omega arith),
                  cl,
                  lt→ltb (length seg.file) (s.offset + 8 + length last.payload) (omega arith),
                  or_true,
                )
                refl
        ]

    frame_loop-tail :
        (fuel : ℕ) (s : Scan) (pre : Bytes)
        → s.kept ≡ seg.file
        → seg.file ≡ pre ++ tail
        → length pre ≡ s.offset
        → frame_loop crc32c keyed_hash seg decode (suc fuel) s ≡ some (close_frames seg n s)
    unfolding frame_loop
    frame_loop-tail fuel s pre kept whole here =
        let size : length seg.file ≡ s.offset + n =
          rw whole (omega (arith, length-append pre tail, length-tail)) in
        elim (Bool-cases (ltb 0 n)) [
          | inl some_bytes ↦ rw (
            some_bytes,
            lt→ltb s.offset (length seg.file) (omega (arith, ltb→lt 0 n some_bytes)),
            frame_round-tail s pre kept whole here,
          )
          | inr none_left ↦ rw (
            none_left,
            le→ltb-false s.offset (length seg.file) (omega (arith, ltb-false→le 0 n none_left)),
          )
        ]

    pub frame_loop-frames :
        (fs : List Frame) (fuel : ℕ) (s : Scan) (pre : Bytes)
        → length fs < fuel
        → seg.file ≡ pre ++ (frames crc32c fs ++ tail)
        → length pre ≡ s.offset
        → s.kept ≡ seg.file
        → s.last_valid_offset ≡ s.offset
        → All (IsFrame crc32c decode) fs
        → Follows crc32c keyed_hash seg s (views_of fs)
        → (t : Scan) × (frame_loop crc32c keyed_hash seg decode fuel s
            ≡ some (close_frames seg n t))
          × IsRead s (views_of fs) t
          × (t.last_valid_offset ≡ s.offset + length (frames crc32c fs))
    frame_loop-frames fs zero s pre enough whole here kept valid good follows = absurd (omega arith)
    frame_loop-frames [] (suc fuel) s pre enough whole here kept valid good follows = (
      s,
      frame_loop-tail fuel s pre kept whole here,
      unfold read_all in read_all-IsRead seg s [],
      omega arith,
    )
    frame_loop-frames (f ∷ fs) (suc fuel) s pre enough whole here kept valid good follows =
        let bytes = frame_bytes crc32c f in
        let u = frame_step seg s f in
        let one : IsRead s f.views u = read_frame (read_all-IsRead seg s f.views) in
        let whole' : seg.file ≡ pre ++ (bytes ++ (frames crc32c fs ++ tail)) =
          whole ∙ ap (λ t. pre ++ t) (append_assoc bytes (frames crc32c fs) tail) in
        let size = length-frame_bytes crc32c f in
        let (t, returned, all, at) =
          frame_loop-frames fs fuel u (pre ++ bytes) (omega arith)
            (whole' ∙ sym (append_assoc pre bytes (frames crc32c fs ++ tail)))
            (omega (arith, length-append pre bytes)) (one.kept ∙ kept) refl good.1
            (Follows-read_all crc32c keyed_hash seg s f.views (views_of fs) follows) in
        (
          t,
          frame_loop-whole fuel s f (views_of fs) pre (frames crc32c fs ++ tail) kept whole' here
                good.0 follows
              ∙ returned,
          IsRead-append s u t f.views (views_of fs) one all,
          at ∙ omega (arith, length-append bytes (frames crc32c fs)),
        )
      where
        read_frame :
            IsRead s f.views (read_all seg s f.views) → IsRead s f.views (frame_step seg s f)
        read_frame r = record {
          kept = r.kept;
          warnings = r.warnings;
          count = r.count;
          sequence = r.sequence;
          hash = r.hash;
        }
