-- ===== src/Recovery/Frames.antt =====
-- `scan_last_segment` of logdb/src/recovery.rs on a compressed or encrypted segment: frames, each with the records
-- of one batch. The file changes while it is read: `torn!` ends the innermost loop only, which for a record is the
-- loop over the frame.
pub mod Stored
pub mod Layout
pub mod Loop
pub mod Recovered
pub mod Break
pub mod Total
use lv_logdb.Prelude.{
  ℕ, zero, suc, ◌+◌, ◌-◌, ◌%◌, ◌^◌, min, Bool, true, false, ◌||◌, Option, none, some, [], ◌∷◌, ◌++◌,
  Bytes, int_at, slice, take, replicate, length, ltb, ◌==◌, if◌then◌else◌, ok, err, bytes_eq,
}
use lv_logdb.Format.{min_record_size, frame_header_size}
use lv_logdb.Format.Record.{Record, deserialize_record}
use lv_logdb.Pipeline.Sealer.{blake3_keyed_chain}
use lv_logdb.Recovery.Scan.{
  Segment, Scan, Round, stop, next, torn_write, hash_chain_break, start, stride, out_of_place, seen,
  scan_raw,
}

-- `File::set_len`, which fills up with zeros
abbrev pub set_len : ℕ → Bytes → Bytes
set_len n file = take n file ++ replicate (n - length file) 0

-- What `torn!(offset)` does to the state.
unfoldable pub torn_at : Segment → Scan → Scan
torn_at seg s = record s {
  kept = set_len s.last_valid_offset s.kept;
  warnings = s.warnings ++ (torn_write seg.segment_id s.expected_record_id s.offset ∷ []);
}

-- A round of the loop over a frame: it ends, with `frame_ok`, or goes on at the next record.
pub data RecordRound : Type 0 where
  ended : Bool → Scan → RecordRound
  going : ℕ → Scan → RecordRound

module _ (crc32c : Bytes → ℕ) (keyed_hash : Bytes → Bytes → Bytes) (seg : Segment) where
  -- The hash and the id of the record that is next.
  abbrev pub expect_next : Scan → Record → Scan
  expect_next s r = record s { expected_record_id = (r.id.sequence + stride seg) % 2 ^ 64 }

  unfoldable pub chain_record : Scan → Record → ℕ → RecordRound
  chain_record s r doff =
      let expected = blake3_keyed_chain keyed_hash seg.chain_key s.chain_prev r.content in
      if seg.hash_enabled
      then (if bytes_eq expected r.hash_n
          then going doff (expect_next (record s { chain_prev = r.hash_n }) r)
          else ended true (
              torn_at seg (record s {
                warnings = s.warnings ++ (hash_chain_break seg.segment_id expected r.hash_n ∷ []);
              })))
      else going doff (expect_next s r)

  unfoldable pub take_record : Scan → Record → ℕ → RecordRound
  take_record s r doff =
      if out_of_place seg s r then ended false s else chain_record (seen s r) r doff

  unfoldable pub record_round : Bytes → ℕ → ℕ → Scan → RecordRound
  record_round decoded valid_len doff s =
      let total = int_at 4 decoded doff in
      if ltb valid_len (doff + min_record_size)
      then ended true s
      else if ltb total min_record_size || ltb valid_len (doff + total)
      then ended true s
      else elim (deserialize_record crc32c (slice decoded doff (doff + total))) [
        | ok done ↦ take_record s done.0 (doff + total)
        | err e ↦ ended false s
      ]

  -- The loop over a frame, on fuel: whether the frame is good, and the state.
  unfoldable pub record_loop : ℕ → Bytes → ℕ → ℕ → Scan → Option (Bool × Scan)
  record_loop zero decoded valid_len doff s = none
  record_loop (suc fuel) decoded valid_len doff s = elim (record_round decoded valid_len doff s) [
    | ended frame_ok t ↦ some (frame_ok, t)
    | going doff' t ↦ record_loop fuel decoded valid_len doff' t
  ]

  -- Behind the loop.
  abbrev pub end_frame : ℕ → Option (Bool × Scan) → Option Round
  end_frame frame_end none = none
  end_frame frame_end (some (false, t)) = some (stop (torn_at seg t))
  end_frame frame_end (some (true, t)) =
      some (next (record t { last_valid_offset = frame_end; offset = frame_end }))

  module _ (decode : Bytes → Option Bytes) where
    abbrev pub scan_frame : ℕ → ℕ → Scan → Option Bytes → Option Round
    scan_frame dl frame_end s none = some (stop (torn_at seg s))
    scan_frame dl frame_end s (some decoded) =
        let valid_len = min dl (length decoded) in
        end_frame frame_end (record_loop (suc valid_len) decoded valid_len 0 s)

    -- A round of the loop at `offset < file_size`; a read fails behind the end that the file has by then.
    unfoldable pub frame_round : Scan → Option Round
    frame_round s =
        let cl = int_at 4 s.kept s.offset in
        let dl = int_at 4 s.kept (s.offset + 4) in
        let payload_at = s.offset + frame_header_size in
        if ltb (length seg.file) payload_at || ltb (length s.kept) payload_at
        then some (stop (torn_at seg s))
        else if cl == 0
            || dl == 0
            || ltb (length seg.file) (payload_at + cl)
            || ltb (length s.kept) (payload_at + cl)
        then some (stop (torn_at seg s))
        else scan_frame dl (payload_at + cl) s (decode (slice s.kept payload_at (payload_at + cl)))

    unfoldable pub frame_loop : ℕ → Scan → Option Scan
    frame_loop zero s = none
    frame_loop (suc fuel) s =
        if ltb s.offset (length seg.file)
        then elim (frame_round s) [
          | none ↦ none
          | some (stop t) ↦ some t
          | some (next t) ↦ frame_loop fuel t
        ]
        else some s

    -- Each round takes more than 8 bytes.
    unfoldable pub scan_frames : Option Scan
    scan_frames = frame_loop (suc (length seg.file)) (start seg)

    -- The two layouts.
    abbrev pub scan_last_segment : Bool → Bool → Option Scan
    scan_last_segment is_compressed is_encrypted =
        if is_compressed || is_encrypted then scan_frames else scan_raw crc32c keyed_hash seg
