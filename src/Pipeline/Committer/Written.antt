-- ===== src/Pipeline/Committer/Written.antt =====
-- The number that `append_batch` (logdb/src/storage/mod.rs) returns to the committer.
use native.Mathlib.Nat.{le_refl}
use lv_logdb.Prelude.{
  ℕ, zero, suc, ◌+◌, ◌-◌, ◌%◌, ◌^◌, ◌≤◌, ◌<◌, ◌≡◌, sym, subst, inl, inr, Bool-cases, Option, none,
  some, Option-cases, [], ◌++◌, length, ◌==◌, if_intro, arith, Bytes, Result, ok, err,
}
use lv_logdb.Ring.{Ring}
use lv_logdb.Format.Record.{record_bytes}
use lv_logdb.Format.{record_size}
use lv_logdb.Storage.Segments.{SegmentManager, SegmentError, has_room, update_ts_range}
use lv_logdb.Storage.Segments.Append.{
  append_loop, append_batch, Batch, upto, no_room, write_batch, index_record, maybe_prepare_next,
  Outcome, view_at, end_batch, return_last,
}

-- The loop of `append_batch` ends with a number from `low` to below `high`, if it ends with a batch.
abbrev EndsIn : ℕ → ℕ → Batch → Type 0
EndsIn low high no_room = Unit
EndsIn low high Batch.panicked = Unit
EndsIn low high (upto m raw last) = (low ≤ last) × (last < high)

module _ (crc32c : Bytes → ℕ) (r : Ring) (start : ℕ) where
  append_loop-EndsIn :
      (n seq low : ℕ) (m : SegmentManager) (raw : Bytes) (last : ℕ)
      → low ≤ last
      → last < seq
      → EndsIn low (seq + n) (append_loop crc32c r start n seq m raw last)
  unfolding append_loop
  append_loop-EndsIn zero seq low m raw last from to = (from, omega arith)
  append_loop-EndsIn (suc n) seq low m raw last from to =
      let view = view_at r seq in
      let room =
        has_room m.active (length raw + record_size (length view.content)) m.segment_size in
      elim (Bool-cases room) [
        | inl fits ↦ elim (Option-cases (index_record m view (start + length raw))) [
          | inl none_left ↦ rw (append_loop, fits, none_left) tt
          | inr t ↦
              let e = t.1 in
              let m' = t.0 in
              let count : seq + suc n ≡ seq + 1 + n = omega arith in
              rw (append_loop, fits, e, count)
                (append_loop-EndsIn n (seq + 1) low
                  (record m' { active = update_ts_range m'.active view.timestamp_ns })
                  (raw ++ record_bytes crc32c view.record_id view) seq (omega arith) (omega arith))
        ]
        | inr over ↦
            rw (append_loop, over)
              (if_intro (EndsIn low (seq + suc n)) (length raw == 0) (λ e. tt)
                (λ e. (from, omega arith)))
      ]

  append_loop-first :
      (n from : ℕ) (m : SegmentManager) (last : ℕ)
      → EndsIn from (from + suc n) (append_loop crc32c r start (suc n) from m [] last)
  unfolding append_loop
  append_loop-first n from m last =
      let view = view_at r from in
      let room = has_room m.active (0 + record_size (length view.content)) m.segment_size in
      elim (Bool-cases room) [
        | inl fits ↦ elim (Option-cases (index_record m view (start + 0))) [
          | inl none_left ↦ rw (append_loop, fits, none_left) tt
          | inr t ↦
              let e = t.1 in
              let m' = t.0 in
              let count : from + suc n ≡ from + 1 + n = omega arith in
              rw (append_loop, fits, e, count)
                (append_loop-EndsIn n (from + 1) from
                  (record m' { active = update_ts_range m'.active view.timestamp_ns })
                  ([] ++ record_bytes crc32c view.record_id view) from (le_refl from) (omega arith))
        ]
        | inr over ↦ rw (append_loop, over) tt
      ]

module _ (crc32c : Bytes → ℕ) (encode_payload : Bytes → Option Bytes) where
  -- What a call of `append_batch` returns lies in the range that was asked for.
  abbrev pub Within : ℕ → ℕ → Outcome ℕ → Type 0
  Within from to none = Unit
  Within from to (some (ok last, m)) = (from ≤ last) × (last ≤ to)
  Within from to (some (err e, m)) = Unit

  return_last-Within :
      (from to last : ℕ) (w : Result SegmentError (Unit {0}) × SegmentManager)
      → from ≤ last
      → last ≤ to
      → Within from to (return_last crc32c encode_payload last w)
  return_last-Within from to last (err e, m) a b = tt
  return_last-Within from to last (ok u, m) a b =
      prepared (maybe_prepare_next crc32c m ((last + 1) % 2 ^ 64))
    where
      prepared :
          (o : Outcome (Unit {0}))
          → Within from to (elim o [
            | none ↦ none
            | some (err e, m') ↦ some (err e, m')
            | some (ok u', m') ↦ some (ok last, m')
          ])
      prepared none = tt
      prepared (some (err e, m')) = tt
      prepared (some (ok u', m')) = (a, b)

  end_batch-Within :
      (from to start : ℕ) (m : SegmentManager) (b : Batch)
      → EndsIn from (to + 1) b
      → Within from to (end_batch crc32c encode_payload m start b)
  end_batch-Within from to start m no_room h = tt
  end_batch-Within from to start m Batch.panicked h = tt
  end_batch-Within from to start m (upto m' raw last) h =
      return_last-Within from to last (write_batch crc32c encode_payload m' start raw) h.0
        (omega (arith, h.1))

  pub append_batch-Within :
      (r : Ring) (from to : ℕ) (m : SegmentManager)
      → from ≤ to
      → Within from to (append_batch crc32c encode_payload r from to m)
  unfolding append_batch
  append_batch-Within r from to m asked =
      let n = to - from in
      let count : to + 1 - from ≡ suc n = omega arith in
      let whole : from + suc n ≡ to + 1 = omega arith in
      let start = m.active.offset in
      let last = (from + 2 ^ 64 - 1) % 2 ^ 64 in
      end_batch-Within from to start m (append_loop crc32c r start (to + 1 - from) from m [] last) (
        subst (λ c. EndsIn from (to + 1) (append_loop crc32c r start c from m [] last)) (sym count)
          (subst (λ h. EndsIn from h (append_loop crc32c r start (suc n) from m [] last)) whole
            (append_loop-first crc32c r start n from m last)))
