-- ===== src/Recovery/Scan/Stored.antt =====
-- One round of the scan (logdb/src/recovery.rs) at a record that was written whole.
use lv_logdb.Prelude.{
  ℕ, ◌+◌, ◌%◌, ◌^◌, ◌≤◌, ◌<◌, ◌≡◌, ap, ◌∙◌, ◌⊎◌, inl, inr, true, false, ◌++◌, Bytes, int_at,
  from_le, slice, length, if◌then◌else◌, arith, bytes_eq_refl, slice-append, take-append,
  length-append, le→ltb-false, Bool-cases,
}
use lv_logdb.Format.{ReadView, record_size}
use lv_logdb.Format.Record.{IsView, record_bytes, view_record}
use lv_logdb.Format.Record.RoundTrip.{
  total-record_bytes, deserialize_record-whole, length-record_bytes,
}
use lv_logdb.Pipeline.Sealer.{blake3_keyed_chain}
use lv_logdb.Recovery.Scan.{
  Segment, Scan, next, advance, check_chain, accept, raw_round, stride, seen, out_of_place,
}

-- The hash that the next record is chained to.
abbrev pub next_prev : Segment → Bytes → ReadView → Bytes
next_prev seg prev v = if seg.hash_enabled then v.hash_n else prev

-- The state once `v` is read.
abbrev pub step : Segment → Scan → ReadView → Scan
step seg s v = record s {
  offset = s.offset + record_size (length v.content);
  last_valid_offset = s.offset + record_size (length v.content);
  last_sequence = v.record_id;
  last_hash = v.hash_n;
  expected_record_id = (v.record_id + stride seg) % 2 ^ 64;
  count = s.count + 1;
  chain_prev = next_prev seg s.chain_prev v;
}

-- The id is the expected one, or the first one of a shard among several.
abbrev pub InPlace : Segment → Scan → ℕ → Type 0
InPlace seg s id = (id ≡ s.expected_record_id) ⊎ ((s.count ≡ 0) × (0 < seg.shard_bits))

pub InPlace-out_of_place :
    (seg : Segment) (s : Scan) (v : ReadView)
    → InPlace seg s v.record_id
    → out_of_place seg s (view_record v.record_id v) ≡ false
InPlace-out_of_place seg s v (inl e) = ground arith
InPlace-out_of_place seg s v (inr h) = ground arith

-- A record that stands in a buffer: its length, its bytes, and that they end in the buffer.
pub record_at :
    (crc32c : Bytes → ℕ) (v : ReadView) (buf pre rest : Bytes) (at : ℕ)
    → buf ≡ pre ++ (record_bytes crc32c v.record_id v ++ rest)
    → length pre ≡ at
    → IsView v.record_id v
    → (int_at 4 buf at ≡ record_size (length v.content))
      × (slice buf at (at + record_size (length v.content)) ≡ record_bytes crc32c v.record_id v)
      × (at + record_size (length v.content) ≤ length buf)
record_at crc32c v buf pre rest at whole here valid =
    let bytes = record_bytes crc32c v.record_id v in
    let size = record_size (length v.content) in
    (
      rw whole (
          ap from_le (slice-append pre (bytes ++ rest) at 4 here)
          ∙ total-record_bytes crc32c v.record_id v rest valid),
      rw whole (
          slice-append pre (bytes ++ rest) at size here
          ∙ take-append size bytes rest (length-record_bytes crc32c v.record_id v valid)),
      rw whole (
          omega (
            arith,
            length-append pre (bytes ++ rest),
            length-append bytes rest,
            length-record_bytes crc32c v.record_id v valid,
          )),
    )

module _ (crc32c : Bytes → ℕ) (keyed_hash : Bytes → Bytes → Bytes) (seg : Segment) where
  -- The hash that the record carries is that of the chain, where there is one.
  abbrev pub IsChained : Bytes → ReadView → Type 0
  IsChained prev v =
      seg.hash_enabled ≡ true
      → v.hash_n ≡ blake3_keyed_chain keyed_hash seg.chain_key prev v.content

  check_chain-step :
      (s : Scan) (v : ReadView)
      → IsChained s.chain_prev v
      → check_chain crc32c keyed_hash seg
          (seen s (view_record v.record_id v))
          (view_record v.record_id v)
          (record_size (length v.content))
        ≡ next (step seg s v)
  unfolding check_chain advance
  check_chain-step s v chained = elim (Bool-cases seg.hash_enabled) [
    | inl on ↦ rw (on, ← chained on, bytes_eq_refl)
    | inr off ↦ rw off
  ]

  -- At a whole record the round is that of `Ok((record, _))`.
  pub raw_round-accept :
      ((bs : Bytes) → crc32c bs < 256 ^ 4)
      → (s : Scan) (v : ReadView) (pre rest : Bytes)
      → seg.file ≡ pre ++ (record_bytes crc32c v.record_id v ++ rest)
      → length pre ≡ s.offset
      → IsView v.record_id v
      → raw_round crc32c keyed_hash seg s
        ≡ accept crc32c keyed_hash seg s
            (view_record v.record_id v)
            (record_size (length v.content))
  unfolding raw_round
  raw_round-accept small s v pre rest whole here valid =
      let size = record_size (length v.content) in
      let (total, read, long) = record_at crc32c v seg.file pre rest s.offset whole here valid in
      rw
        (
          total,
          le→ltb-false (length seg.file) (s.offset + 4) (omega arith),
          le→ltb-false size 60 (omega arith),
          le→ltb-false (length seg.file) (s.offset + size) long,
          read,
          deserialize_record-whole crc32c v.record_id v small valid,
        )
        (rw total)

  pub raw_round-record :
      ((bs : Bytes) → crc32c bs < 256 ^ 4)
      → (s : Scan) (v : ReadView) (pre rest : Bytes)
      → seg.file ≡ pre ++ (record_bytes crc32c v.record_id v ++ rest)
      → length pre ≡ s.offset
      → IsView v.record_id v
      → InPlace seg s v.record_id
      → IsChained s.chain_prev v
      → raw_round crc32c keyed_hash seg s ≡ next (step seg s v)
  unfolding accept
  raw_round-record small s v pre rest whole here valid place chained =
      raw_round-accept small s v pre rest whole here valid
      ∙ rw (InPlace-out_of_place seg s v place) (check_chain-step s v chained)
