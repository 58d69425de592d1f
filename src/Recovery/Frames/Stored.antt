-- ===== src/Recovery/Frames/Stored.antt =====
-- The loop over a frame (logdb/src/recovery.rs) whose payload holds whole records.
use lv_logdb.Prelude.{
  ℕ, zero, suc, ◌+◌, ◌%◌, ◌^◌, ◌<◌, ◌≡◌, refl, sym, ◌∙◌, inl, inr, true, some, List, [], ◌∷◌, ◌++◌,
  append_assoc, Bytes, length, arith, bytes_eq_refl, length-append, le→ltb-false, lt→ltb,
  Bool-cases,
}
use lv_logdb.Format.{ReadView, record_size}
use lv_logdb.Format.Record.{IsView, record_bytes, view_record}
use lv_logdb.Format.Record.RoundTrip.{deserialize_record-whole, length-record_bytes}
use lv_logdb.Recovery.Scan.{Segment, Scan, stride, seen}
use lv_logdb.Recovery.Scan.Stored.{next_prev, InPlace, InPlace-out_of_place, IsChained, record_at}
use lv_logdb.Recovery.Scan.Complete.{stored, Consecutive}
use lv_logdb.Recovery.Frames.{ended, going, chain_record, take_record, record_round, record_loop}

-- The state once `v` of a frame is read. The offsets are those of the frame.
abbrev pub read_one : Segment → Scan → ReadView → Scan
read_one seg s v = record s {
  last_sequence = v.record_id;
  last_hash = v.hash_n;
  expected_record_id = (v.record_id + stride seg) % 2 ^ 64;
  count = s.count + 1;
  chain_prev = next_prev seg s.chain_prev v;
}

unfoldable pub read_all : Segment → Scan → List ReadView → Scan
read_all seg s [] = s
read_all seg s (v ∷ vs) = read_all seg (read_one seg s v) vs

module _ (crc32c : Bytes → ℕ) (keyed_hash : Bytes → Bytes → Bytes) (seg : Segment) where
  -- The records may follow: ids from the expected one on, and hashes of the chain.
  abbrev pub Follows : Scan → List ReadView → Type 0
  Follows s vs = (id : ℕ) × InPlace seg s id × Consecutive crc32c keyed_hash seg id s.chain_prev vs

  pub Follows-read_one :
      (s : Scan) (v : ReadView) (vs : List ReadView)
      → Follows s (v ∷ vs)
      → Follows (read_one seg s v) vs
  Follows-read_one s v vs (id, place, (e, valid, hash, c)) =
      ((v.record_id + stride seg) % 2 ^ 64, inl refl, c)

  pub Follows-read_all :
      (s : Scan) (vs ws : List ReadView) → Follows s (vs ++ ws) → Follows (read_all seg s vs) ws
  unfolding read_all
  Follows-read_all s [] ws f = f
  Follows-read_all s (v ∷ vs) ws f =
      Follows-read_all (read_one seg s v) vs ws (Follows-read_one s v (vs ++ ws) f)

  chain_record-read_one :
      (s : Scan) (v : ReadView) (doff : ℕ)
      → IsChained crc32c keyed_hash seg s.chain_prev v
      → chain_record crc32c keyed_hash seg
          (seen s (view_record v.record_id v))
          (view_record v.record_id v)
          doff
        ≡ going doff (read_one seg s v)
  unfolding chain_record
  chain_record-read_one s v doff chained = elim (Bool-cases seg.hash_enabled) [
    | inl on ↦ rw (on, ← chained on, bytes_eq_refl)
    | inr off ↦ rw off
  ]

  module _ (small : (bs : Bytes) → crc32c bs < 256 ^ 4) where
    -- A round at a whole record takes it.
    pub record_round-take :
        (s : Scan) (v : ReadView) (decoded pre rest : Bytes) (doff : ℕ)
        → decoded ≡ pre ++ (record_bytes crc32c v.record_id v ++ rest)
        → length pre ≡ doff
        → IsView v.record_id v
        → record_round crc32c keyed_hash seg decoded (length decoded) doff s
          ≡ take_record crc32c keyed_hash seg s
              (view_record v.record_id v)
              (doff + record_size (length v.content))
    unfolding record_round
    record_round-take s v decoded pre rest doff whole here valid =
        let size = record_size (length v.content) in
        let (total, bytes, long) = record_at crc32c v decoded pre rest doff whole here valid in
        rw
          (
            total,
            le→ltb-false (length decoded) (doff + 60) (omega arith),
            le→ltb-false size 60 (omega arith),
            le→ltb-false (length decoded) (doff + size) long,
            bytes,
            deserialize_record-whole crc32c v.record_id v small valid,
          )
          (rw total)

    record_round-read_one :
        (s : Scan) (v : ReadView) (vs : List ReadView) (decoded pre rest : Bytes) (doff : ℕ)
        → decoded ≡ pre ++ (record_bytes crc32c v.record_id v ++ rest)
        → length pre ≡ doff
        → Follows s (v ∷ vs)
        → record_round crc32c keyed_hash seg decoded (length decoded) doff s
          ≡ going (doff + record_size (length v.content)) (read_one seg s v)
    unfolding take_record
    record_round-read_one s v vs decoded pre rest doff whole here (id, place, (e, valid, hash, c)) =
        record_round-take s v decoded pre rest doff whole here valid
        ∙ rw (InPlace-out_of_place seg s v (rw e place)) (chain_record-read_one s v _ hash)

    record_round-end :
        (s : Scan) (decoded : Bytes) (doff : ℕ)
        → length decoded ≡ doff
        → record_round crc32c keyed_hash seg decoded (length decoded) doff s ≡ ended true s
    unfolding record_round
    record_round-end s decoded doff e = rw (lt→ltb (length decoded) (doff + 60) (omega arith))

    pub record_loop-from :
        (vs ws : List ReadView) (fuel : ℕ) (s : Scan) (decoded pre : Bytes) (doff : ℕ)
        → length vs < fuel
        → decoded ≡ pre ++ stored crc32c vs
        → length pre ≡ doff
        → Follows s (vs ++ ws)
        → record_loop crc32c keyed_hash seg fuel decoded (length decoded) doff s
          ≡ some (true, read_all seg s vs)
    unfolding record_loop stored read_all
    record_loop-from vs ws zero s decoded pre doff enough whole here f = absurd (omega arith)
    record_loop-from [] ws (suc fuel) s decoded pre doff enough whole here f =
        let size : length decoded ≡ doff =
          rw whole (omega (arith, length-append pre (stored crc32c []))) in
        rw (record_round-end s decoded doff size, record_loop)
    record_loop-from (v ∷ vs) ws (suc fuel) s decoded pre doff enough whole here f =
        let bytes = record_bytes crc32c v.record_id v in
        let (id, place, (e, valid, hash, c)) = f in
        let here' : length (pre ++ bytes) ≡ doff + record_size (length v.content) =
          omega (arith, length-append pre bytes, length-record_bytes crc32c v.record_id v valid) in
        rw
          (
            record_round-read_one s v (vs ++ ws) decoded pre (stored crc32c vs) doff whole here f,
            record_loop,
          )
          (record_loop-from vs ws fuel (read_one seg s v) decoded (pre ++ bytes)
            (doff + record_size (length v.content)) (omega arith)
            (whole ∙ sym (append_assoc pre bytes (stored crc32c vs))) here'
            (Follows-read_one s v (vs ++ ws) f))
