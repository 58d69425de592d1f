-- ===== src/Storage/Segments/Append/Stored.antt =====
-- What `append_batch` of logdb/src/storage/mod.rs makes of a raw segment: records go to its end, as
-- many as fit.
use lv_logdb.Prelude.{
  ℕ, suc, ◌+◌, ◌-◌, ◌%◌, ◌^◌, ◌≤◌, ◌<◌, ◌≡◌, refl, ap, subst, ◌∙◌, ◌⊎◌, inl, inr, false, Option,
  none, some, [], ◌++◌, Bytes, length, arith, Bool-cases, leb→le, leb-false→lt, ne→==-false, ok,
  err,
}
use lv_logdb.Format.{record_size}
use lv_logdb.Format.Record.{record_bytes}
use lv_logdb.Format.Record.RoundTrip.{length-record_bytes}
use lv_logdb.Recovery.Scan.Complete.{stored}
use lv_logdb.Ring.{Ring}
use lv_logdb.Storage.Disk.{content_of}
use lv_logdb.Storage.Segments.{SegmentManager, full, has_room, is_some}
use lv_logdb.Storage.Segments.Manager.{IsManager}
use lv_logdb.Storage.Segments.Append.{
  no_room, view_at, append_loop, write_batch, return_last, end_batch, append_batch,
}
use lv_logdb.Storage.Segments.Append.Kept.{
  wrote, wrote-content, wrote-IsManager, touched-IsManager, maybe_prepare_next-StaysActive,
}
use lv_logdb.Storage.Segments.Append.Loop.{
  views, AllViews, touched, Takes, append_loop-step, append_loop-Takes, Takes-suc, size_of-suc,
}

-- Records stand in the file one after another: neither compression nor encryption.
abbrev pub IsRaw : SegmentManager → Type 0
IsRaw m = (m.active.compressed ≡ false) × (m.key_id ≡ none)

module _ (crc32c : Bytes → ℕ) (r : Ring) where
  -- The records of the `k` numbers from `from` on stand behind what was in the active file: at least
  -- one, and all up to `to` or as many as fit.
  pub record Appended (from to k : ℕ) (m m' : SegmentManager) : Type 0 where
    pub valid : IsManager m'
    pub active_id : m'.active_id ≡ m.active_id
    pub content :
        content_of m.active_id m'.dir
        ≡ content_of m.active_id m.dir ++ stored crc32c (views r from k)
    pub fits : m'.active.offset ≤ m.segment_size
    pub some_taken : 0 < k
    pub within : from + k ≤ to + 1
    pub rest :
        (from + k ≡ to + 1)
        ⊎ (m.segment_size < m'.active.offset + record_size (length (view_at r (from + k)).content))

  module _ (encode_payload : Bytes → Option Bytes) where
    write_batch-raw :
        (m : SegmentManager) (raw : Bytes)
        → IsRaw m
        → 0 < length raw
        → write_batch crc32c encode_payload m m.active.offset raw ≡ (ok tt, wrote m raw)
    unfolding write_batch
    write_batch-raw m raw (off, plain) some_bytes =
        rw (write_batch, ne→==-false (length raw) 0 (λ z. omega arith), off, ap is_some plain) refl

    -- The end of a batch that took `k` records.
    end_batch-Takes :
        (from to n last k : ℕ) (m : SegmentManager)
        → IsManager m
        → IsRaw m
        → m.active_id + 1 < 2 ^ 32
        → from + n ≡ to + 1
        → (t : Takes crc32c r m.active.offset n from m [] last (suc k))
        → 0 < length (stored crc32c (views r from (suc k)))
        → (m' : SegmentManager) × (end_batch crc32c encode_payload m m.active.offset
              (append_loop crc32c r m.active.offset n from m [] last)
            ≡ some (ok (from + k), m'))
          × Appended from to (suc k) m m'
    end_batch-Takes from to n last k m i raw small up t some_bytes =
        let bytes = stored crc32c (views r from (suc k)) in
        let m1 = touched m t.min_ts t.max_ts t.index t.count in
        let i1 = touched-IsManager m t.min_ts t.max_ts t.count t.index i t.strided in
        let next =
          maybe_prepare_next-StaysActive crc32c (wrote m1 bytes) ((from + k + 1) % 2 ^ 64)
            (wrote-IsManager m1 bytes i1) small in
        let end : next.0.active.offset ≡ m.active.offset + length bytes =
          ap (λ a. a.offset) next.2.active in
        (
          next.0,
          ap (end_batch crc32c encode_payload m m.active.offset) t.ends
              ∙ ap (return_last crc32c encode_payload (from + k))
                  (write_batch-raw m1 bytes raw some_bytes)
              ∙ rw (return_last, next.1) refl,
          record {
            valid = next.2.valid;
            active_id = next.2.active_id;
            content = next.2.content ∙ wrote-content m1 bytes i1;
            fits = omega (arith, end, t.fits);
            some_taken = omega arith;
            within = omega (arith, t.within, up);
            rest = elim t.rest [
              | inl all ↦ inl (omega (arith, up))
              | inr more ↦ inr (omega (arith, end))
            ];
          },
        )

    -- In a segment without frames that is not beyond its size, for the numbers `from` to `to` whose
    -- records have the ranges of their field types: if the first record does not fit, the call fails
    -- as full and changes nothing. Else it returns the last number that it wrote, at least `from`: the
    -- file has the records up to that one behind what it held, no byte beyond the segment size, and
    -- they are all up to `to`, or the next one would not fit. What holds of the manager between calls
    -- holds again. The size of a segment is below 2^63, the next segment id below 2^32.
    pub append_batch-Appended :
        (from to : ℕ) (m : SegmentManager)
        → IsManager m
        → IsRaw m
        → m.active_id + 1 < 2 ^ 32
        → m.segment_size < 2 ^ 63
        → m.active.offset ≤ m.segment_size
        → from ≤ to
        → AllViews r from (to + 1 - from)
        → ((append_batch crc32c encode_payload r from to m ≡ some (err full, m))
            × (m.segment_size < m.active.offset + record_size (length (view_at r from).content)))
          ⊎ ((k : ℕ) × (m' : SegmentManager) × (append_batch crc32c encode_payload r from to m
                ≡ some (ok (from + k), m'))
              × Appended from to (suc k) m m')
    unfolding append_batch append_loop AllViews
    append_batch-Appended from to m i raw small size room some_asked valid =
        let start = m.active.offset in
        let n = to - from in
        let count : to + 1 - from ≡ suc n = omega arith in
        let valid' : AllViews r from (suc n) = subst (AllViews r from) count valid in
        let last = (from + 2 ^ 64 - 1) % 2 ^ 64 in
        let counted : append_batch crc32c encode_payload r from to m
            ≡ end_batch crc32c encode_payload m start
                (append_loop crc32c r start (suc n) from m [] last) =
          ap
            (λ c.
              end_batch crc32c encode_payload m start (append_loop crc32c r start c from m [] last))
            count in
        let view = view_at r from in
        let need = record_size (length view.content) in
        let wide : need < 256 ^ 4 = valid'.0.size_in in
        elim (Bool-cases (has_room m.active (0 + need) m.segment_size)) [
          | inr over ↦ inl (
            counted
                ∙ ap (end_batch crc32c encode_payload m start)
                    (append_loop_none n from last m over),
            omega (arith, leb-false→lt ((start + (0 + need)) % 2 ^ 64) m.segment_size over),
          )
          | inl fits ↦
              let fits' : start + (0 + need) ≤ m.segment_size =
                omega (arith, leb→le ((start + (0 + need)) % 2 ^ 64) m.segment_size fits) in
              let step =
                append_loop-step crc32c r start n from m [] last valid'.0 i.strided size fits' in
              let bytes = record_bytes crc32c view.record_id view in
              let long = length-record_bytes crc32c view.record_id view valid'.0 in
              let rest =
                append_loop-Takes crc32c r start n (from + 1)
                  (touched m step.0 step.1 step.2 step.3) bytes from valid'.1 step.4 size
                  (omega (arith, long)) (omega (arith, long)) in
              let all =
                Takes-suc crc32c r start n from m [] last rest.0 valid'.0 step.0 step.1 step.2
                  step.3 step.5 rest.1 in
              let done =
                end_batch-Takes from to (suc n) last rest.0 m i raw small (omega arith) all
                  (omega (arith, size_of-suc crc32c r start from rest.0 valid'.0)) in
              inr (rest.0, done.0, counted ∙ done.1, done.2)
        ]
      where
        append_loop_none :
            (n from last : ℕ) (m : SegmentManager)
            → has_room m.active (0 + record_size (length (view_at r from).content)) m.segment_size
              ≡ false
            → append_loop crc32c r m.active.offset (suc n) from m [] last ≡ no_room
        append_loop_none n from last m over = rw (append_loop, over) refl
