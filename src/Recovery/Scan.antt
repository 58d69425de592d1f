-- ===== src/Recovery/Scan.antt =====
-- `scan_last_segment` of logdb/src/recovery.rs on a raw segment: records one after another behind the
-- header. A file is its bytes; reads inside it do not fail. The `hash-chain` feature is on: without
-- it the code is that of `hash_enabled = false`.
pub mod Total
pub mod Stored
pub mod Complete
pub mod Recovered
pub mod Break
use lv_logdb.Prelude.{
  ℕ, zero, suc, ◌+◌, ◌-◌, ◌%◌, ◌^◌, Bool, true, false, not, ◌&&◌, Option, none, some, List, [], ◌∷◌,
  ◌++◌, Bytes, int_at, slice, take, replicate, length, ltb, leb, ◌==◌, ◌!=◌, if◌then◌else◌, ok, err,
  bytes_eq,
}
use lv_logdb.Format.{min_record_size, segment_header_size}
use lv_logdb.Format.Record.{Record, deserialize_record}
use lv_logdb.Pipeline.Sealer.{blake3_keyed_chain}

-- `RecoveryWarning`; `corrupted_record` is its `CorruptedHeader` with the reason "CRC mismatch".
pub data RecoveryWarning : Type 0 where
  torn_write : ℕ → ℕ → ℕ → RecoveryWarning
  corrupted_record : ℕ → ℕ → ℕ → RecoveryWarning
  hash_chain_break : ℕ → Bytes → Bytes → RecoveryWarning

-- The arguments of `scan_last_segment`, with the fields of the header that it uses.
pub record Segment : Type 0 where
  pub file : Bytes
  pub segment_id : ℕ
  pub base_sequence : ℕ
  pub prev_last_hash : Bytes
  pub hash_enabled : Bool
  pub chain_key : Bytes
  pub shard_bits : ℕ

-- The variables of the loop, and the file.
pub record Scan : Type 0 where
  pub kept : Bytes
  pub offset : ℕ
  pub last_valid_offset : ℕ
  pub last_sequence : ℕ
  pub last_hash : Bytes
  pub warnings : List RecoveryWarning
  pub expected_record_id : ℕ
  pub count : ℕ
  pub chain_prev : Bytes

-- What a round of the loop does: `break`, or go on.
pub data Round : Type 0 where
  stop : Scan → Round
  next : Scan → Round

abbrev pub zero_hash : Bytes
zero_hash = replicate 32 0

unfoldable pub start : Segment → Scan
start seg = record {
  kept = seg.file;
  offset = segment_header_size;
  last_valid_offset = segment_header_size;
  last_sequence = (seg.base_sequence + 2 ^ 64 - 1) % 2 ^ 64;
  last_hash = zero_hash;
  warnings = [];
  expected_record_id = seg.base_sequence;
  count = 0;
  chain_prev = seg.prev_last_hash;
}

abbrev pub stride : Segment → ℕ
stride seg = 2 ^ seg.shard_bits

-- `torn!(offset)`: the file is cut at the last valid offset, and the loop ends.
pub torn : Segment → Scan → Round
torn seg s = stop (record s {
  kept = take s.last_valid_offset seg.file;
  warnings = s.warnings ++ (torn_write seg.segment_id s.expected_record_id s.offset ∷ []);
})

-- `record.id.sequence != expected_record_id && !(count == 0 && shard_bits > 0)`
abbrev pub out_of_place : Segment → Scan → Record → Bool
out_of_place seg s r =
    (r.id.sequence != s.expected_record_id) && not ((s.count == 0) && ltb 0 seg.shard_bits)

-- The three assignments that follow that test.
abbrev pub seen : Scan → Record → Scan
seen s r = record s { last_sequence = r.id.sequence; last_hash = r.hash_n; count = s.count + 1 }

module _ (crc32c : Bytes → ℕ) (keyed_hash : Bytes → Bytes → Bytes) (seg : Segment) where
  -- The end of the branch `Ok((record, _))`.
  pub advance : Scan → Record → ℕ → Round
  advance s r total = next (record s {
    last_valid_offset = s.offset + total;
    expected_record_id = (r.id.sequence + stride seg) % 2 ^ 64;
    offset = s.offset + total;
  })

  pub check_chain : Scan → Record → ℕ → Round
  check_chain s r total =
      let expected = blake3_keyed_chain keyed_hash seg.chain_key s.chain_prev r.content in
      if seg.hash_enabled
      then (if bytes_eq expected r.hash_n
          then advance (record s { chain_prev = r.hash_n }) r total
          else torn seg (record s {
            warnings = s.warnings ++ (hash_chain_break seg.segment_id expected r.hash_n ∷ []);
          }))
      else advance s r total

  pub accept : Scan → Record → ℕ → Round
  accept s r total = if out_of_place seg s r then torn seg s else check_chain (seen s r) r total

  -- The branch `Err(_)`.
  pub reject : Scan → ℕ → Round
  reject s total =
      if leb (length seg.file) (s.offset + total)
      then torn seg s
      else next (record s {
        warnings =
            s.warnings ++ (corrupted_record seg.segment_id s.expected_record_id s.offset ∷ []);
        offset = s.offset + total;
      })

  -- A round of the loop at `offset < file_size`.
  pub raw_round : Scan → Round
  raw_round s =
      let file_size = length seg.file in
      let total = int_at 4 seg.file s.offset in
      if ltb file_size (s.offset + 4)
      then torn seg s
      else if ltb total min_record_size
      then torn seg s
      else if ltb file_size (s.offset + total)
      then torn seg s
      else elim (deserialize_record crc32c (slice seg.file s.offset (s.offset + total))) [
        | ok done ↦ accept s done.0 total
        | err e ↦ reject s total
      ]

  -- `while offset < file_size`, on fuel; `none` means that the fuel ran out.
  pub raw_loop : ℕ → Scan → Option Scan
  raw_loop zero s = none
  raw_loop (suc fuel) s =
      if ltb s.offset (length seg.file)
      then elim (raw_round s) [ stop t ↦ some t | next t ↦ raw_loop fuel t ]
      else some s

  -- Each round takes 60 bytes at least, so as many rounds as bytes are enough.
  pub scan_raw : Option Scan
  scan_raw = raw_loop (suc (length seg.file)) (start seg)
