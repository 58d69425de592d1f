-- ===== src/Recovery/Scan/Break.antt =====
-- The scan (logdb/src/recovery.rs) at a record that it throws away: one with a wrong hash, and one
-- that does not begin at the segment's base.
use lv_logdb.Prelude.{
  ℕ, suc, ◌<◌, ◌^◌, ◌≡◌, ◌≢◌, refl, true, false, some, [], ◌∷◌, ◌++◌, Bytes, take, length, arith,
  take-append, length-append, lt→ltb, bytes_eq, bytes_eq→eq, ne→!=, !=-refl, Bool,
}
use lv_logdb.Format.{ReadView, record_size, segment_header_size}
use lv_logdb.Format.Record.{IsView, record_bytes, view_record}
use lv_logdb.Format.Record.RoundTrip.{length-record_bytes}
use lv_logdb.Pipeline.Sealer.{blake3_keyed_chain}
use lv_logdb.Recovery.Scan.{
  Segment, Scan, stop, start, torn, accept, check_chain, raw_loop, scan_raw, seen, hash_chain_break,
  torn_write,
}
use lv_logdb.Recovery.Scan.Stored.{raw_round-accept}

module _ (crc32c : Bytes → ℕ) (keyed_hash : Bytes → Bytes → Bytes) (seg : Segment) (header : Bytes)
    (v : ReadView) (rest : Bytes) where
  -- The segment begins with the record `v`.
  pub record BeginsWith : Type 0 where
    pub small : (bs : Bytes) → crc32c bs < 256 ^ 4
    pub header_size : length header ≡ segment_header_size
    pub layout : seg.file ≡ header ++ (record_bytes crc32c v.record_id v ++ rest)
    pub valid : IsView v.record_id v

  -- The first round of the scan.
  raw_loop-first :
      BeginsWith
      → {t : Scan}
      → accept crc32c keyed_hash seg
          (start seg)
          (view_record v.record_id v)
          (record_size (length v.content))
        ≡ stop t
      → raw_loop crc32c keyed_hash seg (suc (length seg.file)) (start seg) ≡ some t
  unfolding raw_loop start
  raw_loop-first b e =
      let long : 128 < length seg.file = rw b.layout (
        omega (
          arith,
          b.header_size,
          length-append header (record_bytes crc32c v.record_id v ++ rest),
          length-append (record_bytes crc32c v.record_id v) rest,
          length-record_bytes crc32c v.record_id v b.valid,
        )) in
      rw (
        lt→ltb 128 (length seg.file) long,
        raw_round-accept crc32c keyed_hash seg b.small (start seg) v header rest b.layout
            b.header_size b.valid,
        e,
      )

  cut_to_header : BeginsWith → take 128 seg.file ≡ header
  cut_to_header b = rw b.layout (take-append 128 header _ b.header_size)

  -- In a segment with hashes on that begins with a whole record at its base whose hash is not that of
  -- the chain, the record is thrown away with all that follows it, so that the header alone is left.
  -- Its id is reported as the last one all the same, and it is counted.
  pub scan_raw-hash_break :
      BeginsWith
      → seg.hash_enabled ≡ true
      → v.record_id ≡ seg.base_sequence
      → blake3_keyed_chain keyed_hash seg.chain_key seg.prev_last_hash v.content ≢ v.hash_n
      → (t : Scan) × (scan_raw crc32c keyed_hash seg ≡ some t)
        × (t.kept ≡ header)
        × (t.last_sequence ≡ v.record_id)
        × (t.count ≡ 1)
  unfolding scan_raw accept check_chain torn start
  scan_raw-hash_break b on place wrong =
      let r = view_record v.record_id v in
      let expected = blake3_keyed_chain keyed_hash seg.chain_key seg.prev_last_hash v.content in
      let differs : bytes_eq expected v.hash_n ≡ false =
        not_equal (bytes_eq expected v.hash_n) refl in
      (
        record (seen (start seg) r) {
          kept = take 128 seg.file;
          warnings =
              hash_chain_break seg.segment_id expected v.hash_n
              ∷ torn_write seg.segment_id seg.base_sequence 128
              ∷ [];
        },
        raw_loop-first b (rw (place, !=-refl, on, differs)),
        cut_to_header b,
        refl,
        refl,
      )
    where
      not_equal :
          (same : Bool)
          → bytes_eq
              (blake3_keyed_chain keyed_hash seg.chain_key seg.prev_last_hash v.content)
              v.hash_n
            ≡ same
          → same ≡ false
      not_equal true e = absurd (wrong (bytes_eq→eq _ _ e))
      not_equal false e = refl

  -- With one shard, a segment that begins with a whole record which is not at its base is cut back to
  -- its header, and no record is recovered, whatever follows.
  scan_raw-displaced :
      BeginsWith
      → seg.shard_bits ≡ 0
      → v.record_id ≢ seg.base_sequence
      → (t : Scan) × (scan_raw crc32c keyed_hash seg ≡ some t) × (t.kept ≡ header) × (t.count ≡ 0)
  unfolding scan_raw accept torn start
  scan_raw-displaced b single place = (
    record (start seg) {
      kept = take 128 seg.file;
      warnings = torn_write seg.segment_id seg.base_sequence 128 ∷ [];
    },
    raw_loop-first b (rw (single, ne→!= v.record_id seg.base_sequence place)),
    cut_to_header b,
    refl,
  )
