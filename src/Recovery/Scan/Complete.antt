-- ===== src/Recovery/Scan/Complete.antt =====
-- The scan (logdb/src/recovery.rs) of a segment that was written whole up to a record cut short.
use lv_logdb.Prelude.{
  ℕ, zero, suc, ◌+◌, ◌%◌, ◌^◌, ◌≤◌, ◌<◌, ◌≡◌, refl, sym, ap, ◌∙◌, inl, inr, some, List, [], ◌∷◌,
  ◌++◌, append_assoc, Bytes, take, int_at, from_le, length, ltb, if◌then◌else◌, arith, slice-append,
  length-append, le→ltb-false, lt→ltb, length-take, Bool-cases, ltb-false→le, ltb→lt,
}
use lv_logdb.Format.{ReadView, record_size}
use lv_logdb.Format.Record.{IsView, record_bytes}
use lv_logdb.Format.Record.RoundTrip.{length-record_bytes}
use lv_logdb.Format.Record.Torn.{total-take}
use lv_logdb.Recovery.Scan.{Segment, Scan, torn, torn_write, raw_round, raw_loop, stride}
use lv_logdb.Recovery.Scan.Stored.{step, next_prev, InPlace, IsChained, raw_round-record}

module _ (crc32c : Bytes → ℕ) where
  -- The records as `append_batch` lays them down, one after another.
  unfoldable pub stored : List ReadView → Bytes
  stored [] = []
  stored (v ∷ vs) = record_bytes crc32c v.record_id v ++ stored vs

-- The state once all of `vs` are read.
unfoldable pub after : Segment → Scan → List ReadView → Scan
after seg s [] = s
after seg s (v ∷ vs) = after seg (step seg s v) vs

-- The state at the end, where `n` bytes stand behind the last whole record.
unfoldable pub close : Segment → ℕ → Scan → Scan
close seg n s =
    if ltb 0 n
    then record s {
      kept = take s.last_valid_offset seg.file;
      warnings = s.warnings ++ (torn_write seg.segment_id s.expected_record_id s.offset ∷ []);
    }
    else s

module _ (crc32c : Bytes → ℕ) (keyed_hash : Bytes → Bytes → Bytes) (seg : Segment) where
  -- The records have consecutive ids of the shard from `id` on, and a hash each of the chain from
  -- `prev` on.
  abbrev pub Consecutive : ℕ → Bytes → List ReadView → Type 0
  Consecutive id prev [] = Unit
  Consecutive id prev (v ∷ vs) =
      (v.record_id ≡ id)
      × IsView v.record_id v
      × IsChained crc32c keyed_hash seg prev v
      × Consecutive ((v.record_id + stride seg) % 2 ^ 64) (next_prev seg prev v) vs

  module _ (small : (bs : Bytes) → crc32c bs < 256 ^ 4) (last : ReadView) (n : ℕ)
      (valid : IsView last.record_id last) (cut : n < record_size (length last.content)) where
    abbrev tail : Bytes
    tail = take n (record_bytes crc32c last.record_id last)

    length-tail : length tail ≡ n
    length-tail = omega (
      arith,
      length-take n (record_bytes crc32c last.record_id last),
      length-record_bytes crc32c last.record_id last valid,
    )

    -- A round at the record cut short tears, if there is a byte of it.
    raw_round-tail :
        (s : Scan) (pre : Bytes)
        → seg.file ≡ pre ++ tail
        → length pre ≡ s.offset
        → raw_round crc32c keyed_hash seg s ≡ torn seg s
    unfolding raw_round
    raw_round-tail s pre whole here =
        let size : length seg.file ≡ s.offset + n =
          rw whole (omega (arith, length-append pre tail, length-tail)) in
        elim (Bool-cases (ltb (length seg.file) (s.offset + 4))) [
          | inl short ↦ rw short
          | inr long ↦
              let four : 4 ≤ n =
                omega (arith, ltb-false→le (length seg.file) (s.offset + 4) long) in
              let total : int_at 4 seg.file s.offset ≡ record_size (length last.content) =
                rw whole (
                  ap from_le (slice-append pre tail s.offset 4 here)
                  ∙ total-take crc32c last.record_id last n valid four) in
              rw (
                long,
                total,
                le→ltb-false (record_size (length last.content)) 60 (omega arith),
                lt→ltb (length seg.file) (s.offset + record_size (length last.content))
                    (omega arith),
              )
        ]

    raw_loop-tail :
        (fuel : ℕ) (s : Scan) (pre : Bytes)
        → seg.file ≡ pre ++ tail
        → length pre ≡ s.offset
        → raw_loop crc32c keyed_hash seg (suc fuel) s ≡ some (close seg n s)
    unfolding raw_loop close torn
    raw_loop-tail fuel s pre whole here =
        let size : length seg.file ≡ s.offset + n =
          rw whole (omega (arith, length-append pre tail, length-tail)) in
        elim (Bool-cases (ltb 0 n)) [
          | inl some_bytes ↦ rw (
            some_bytes,
            lt→ltb s.offset (length seg.file) (omega (arith, ltb→lt 0 n some_bytes)),
            raw_round-tail s pre whole here,
          )
          | inr none_left ↦ rw (
            none_left,
            le→ltb-false s.offset (length seg.file) (omega (arith, ltb-false→le 0 n none_left)),
          )
        ]

    pub raw_loop-stored :
        (vs : List ReadView) (fuel : ℕ) (s : Scan) (pre : Bytes) (id : ℕ)
        → length vs < fuel
        → seg.file ≡ pre ++ (stored crc32c vs ++ tail)
        → length pre ≡ s.offset
        → InPlace seg s id
        → Consecutive id s.chain_prev vs
        → raw_loop crc32c keyed_hash seg fuel s ≡ some (close seg n (after seg s vs))
    unfolding raw_loop stored after
    raw_loop-stored vs zero s pre id enough whole here place chain = absurd (omega arith)
    raw_loop-stored [] (suc fuel) s pre id enough whole here place chain =
        raw_loop-tail fuel s pre whole here
    raw_loop-stored (v ∷ vs) (suc fuel) s pre id enough whole here place (e, valid_v, hash, chain) =
        let bytes = record_bytes crc32c v.record_id v in
        let whole' : seg.file ≡ pre ++ (bytes ++ (stored crc32c vs ++ tail)) =
          whole ∙ ap (λ t. pre ++ t) (append_assoc bytes (stored crc32c vs) tail) in
        let here' : length (pre ++ bytes) ≡ s.offset + record_size (length v.content) =
          omega
            (arith, length-append pre bytes, length-record_bytes crc32c v.record_id v valid_v) in
        let long : s.offset < length seg.file = rw whole' (
          omega (
            arith,
            length-append pre (bytes ++ (stored crc32c vs ++ tail)),
            length-append bytes (stored crc32c vs ++ tail),
            length-record_bytes crc32c v.record_id v valid_v,
          )) in
        rw
          (
            lt→ltb s.offset (length seg.file) long,
            raw_round-record crc32c keyed_hash seg small s v pre (stored crc32c vs ++ tail) whole'
                here valid_v (rw e place) hash,
          )
          (raw_loop-stored vs fuel (step seg s v) (pre ++ bytes)
            ((v.record_id + stride seg) % 2 ^ 64) (omega arith)
            (whole' ∙ sym (append_assoc pre bytes (stored crc32c vs ++ tail))) here' (inl refl)
            chain)
