-- ===== src/Storage/Segments/Append/Refines.antt =====
-- A raw segment as a log: `append_batch` of logdb/src/storage/mod.rs appends to a list of records, and
-- the scan of logdb/src/recovery.rs reads the list back.
use lv_logdb.Prelude.{
  ℕ, zero, suc, ◌+◌, ◌-◌, ◌%◌, ◌^◌, ◌≤◌, ◌<◌, ◌≡◌, refl, sym, ap, subst, ◌∙◌, ◌⊎◌, inl, inr, Option,
  some, List, [], ◌∷◌, ◌++◌, append_assoc, append-nil, Bytes, length, arith, ok, err,
}
use lv_logdb.Format.{ReadView, segment_header_size}
use lv_logdb.Format.Record.{record_bytes}
use lv_logdb.Recovery.Scan.{Segment, Scan, scan_raw, stride}
use lv_logdb.Recovery.Scan.Stored.{next_prev}
use lv_logdb.Recovery.Scan.Complete.{stored, Consecutive}
use lv_logdb.Recovery.Scan.Recovered.{IsRecovered, scan_raw-IsRecovered}
use lv_logdb.Ring.{Ring}
use lv_logdb.Storage.Disk.{content_of}
use lv_logdb.Storage.Segments.{SegmentManager, full}
use lv_logdb.Storage.Segments.Manager.{IsManager}
use lv_logdb.Storage.Segments.Append.{append_batch, view_at}
use lv_logdb.Storage.Segments.Append.Loop.{views, AllViews}
use lv_logdb.Storage.Segments.Append.Stored.{IsRaw, append_batch-Appended}

stored-append :
    (crc32c : Bytes → ℕ) (vs ws : List ReadView)
    → stored crc32c (vs ++ ws) ≡ stored crc32c vs ++ stored crc32c ws
unfolding stored
stored-append crc32c [] ws = refl
stored-append crc32c (v ∷ vs) ws =
    ap (λ t. record_bytes crc32c v.record_id v ++ t) (stored-append crc32c vs ws)
    ∙ sym (append_assoc (record_bytes crc32c v.record_id v) (stored crc32c vs) (stored crc32c ws))

views-append : (r : Ring) (seq k n : ℕ) → views r seq (k + n) ≡ views r seq k ++ views r (seq + k) n
unfolding views
views-append r seq zero n =
    let here : seq + 0 ≡ seq = omega arith in
    let none_yet : 0 + n ≡ n = omega arith in rw (here, none_yet) refl
views-append r seq (suc k) n =
    let there : seq + suc k ≡ seq + 1 + k = omega arith in
    let more : suc k + n ≡ suc (k + n) = omega arith in
    rw (there, more) (ap (λ t. view_at r seq ∷ t) (views-append r (seq + 1) k n))

module _ (crc32c : Bytes → ℕ) (keyed_hash : Bytes → Bytes → Bytes) (seg : Segment) where
  -- The first records of a log of consecutive ones are consecutive.
  Consecutive-front :
      (id : ℕ) (prev : Bytes) (vs ws : List ReadView)
      → Consecutive crc32c keyed_hash seg id prev (vs ++ ws)
      → Consecutive crc32c keyed_hash seg id prev vs
  Consecutive-front id prev [] ws c = tt
  Consecutive-front id prev (v ∷ vs) ws (e, valid, chained, c) = (
    e,
    valid,
    chained,
    Consecutive-front ((v.record_id + stride seg) % 2 ^ 64) (next_prev seg prev v) vs ws c,
  )

  -- The active file holds the header and the records of the log.
  abbrev pub Holds : SegmentManager → Bytes → List ReadView → Type 0
  Holds m header log = content_of m.active_id m.dir ≡ header ++ stored crc32c log

  -- The segment that the scan finds when it opens the active file.
  abbrev pub opened : SegmentManager → Segment
  opened m = record seg { file = content_of m.active_id m.dir }

  -- Where the active file of a segment without frames holds a log, `append_batch` of the numbers
  -- `from` to `to` either fails as full and changes nothing, or returns the last of the numbers that
  -- it took, and then the file holds the log with the records of the ring from `from` up to that
  -- number at its end: exactly those records the scan of recovery finds in it, and it cuts nothing off.
  -- The log with the records asked for has consecutive ids from the first one on, the base of the
  -- segment where there is one shard, and the hashes of its chain where that is on; the file is not
  -- beyond the segment size, which is below 2^63, the next segment id is below 2^32, and checksums fit 32 bits.
  pub append_batch-Holds :
      (encode_payload : Bytes → Option Bytes) (r : Ring) (from to id : ℕ) (m : SegmentManager)
      (header : Bytes) (log : List ReadView)
      → ((bs : Bytes) → crc32c bs < 256 ^ 4)
      → IsManager m
      → IsRaw m
      → m.active_id + 1 < 2 ^ 32
      → m.segment_size < 2 ^ 63
      → m.active.offset ≤ m.segment_size
      → from ≤ to
      → AllViews r from (to + 1 - from)
      → length header ≡ segment_header_size
      → Holds m header log
      → Consecutive crc32c keyed_hash seg id seg.prev_last_hash
          (log ++ views r from (to + 1 - from))
      → (id ≡ seg.base_sequence) ⊎ (0 < seg.shard_bits)
      → (append_batch crc32c encode_payload r from to m ≡ some (err full, m))
        ⊎ ((k : ℕ) × (m' : SegmentManager) × (append_batch crc32c encode_payload r from to m
              ≡ some (ok (from + k), m'))
            × Holds m' header (log ++ views r from (suc k))
            × (t : Scan) × (scan_raw crc32c keyed_hash (opened m') ≡ some t)
            × IsRecovered crc32c keyed_hash (opened m') header (log ++ views r from (suc k)) 0 t)
  unfolding AllViews
  append_batch-Holds encode_payload r from to id m header log small i raw id_in size room asked
        valid long holds chain first =
      elim (append_batch-Appended crc32c r encode_payload from to m i raw id_in size room asked
        valid) [
          | inl no_room ↦ inl no_room.0
          | inr done ↦
              let k = done.0 in
              let a = done.3 in
              let batch = views r from (suc k) in
              let whole : content_of done.1.active_id done.1.dir
                  ≡ header ++ stored crc32c (log ++ batch) =
                rw a.active_id (
                  a.content
                  ∙ ap (λ t. t ++ stored crc32c batch) holds
                  ∙ append_assoc header (stored crc32c log) (stored crc32c batch)
                  ∙ ap (λ t. header ++ t) (sym (stored-append crc32c log batch))) in
              let count : to + 1 - from ≡ suc k + (to - (from + k)) = omega (arith, a.within) in
              let split =
                ap (λ n. log ++ views r from n) count
                ∙ ap (λ t. log ++ t) (views-append r from (suc k) (to - (from + k)))
                ∙ sym (append_assoc log batch (views r (from + suc k) (to - (from + k)))) in
              let front =
                Consecutive-front id seg.prev_last_hash (log ++ batch)
                  (views r (from + suc k) (to - (from + k)))
                  (subst (Consecutive crc32c keyed_hash seg id seg.prev_last_hash) split chain) in
              let one_more : to + 1 - from ≡ suc (to - from) = omega arith in
              let some_view = subst (AllViews r from) one_more valid in
              let scanned =
                scan_raw-IsRecovered crc32c keyed_hash (opened done.1) header (log ++ batch)
                  (view_at r from) 0 id small long
                  (whole ∙ ap (λ t. header ++ t) (sym (append-nil (stored crc32c (log ++ batch)))))
                  front first some_view.0 (omega arith) in
              inr (k, done.1, done.2, whole, scanned.0, scanned.1, scanned.2)
        ]
