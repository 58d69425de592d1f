-- ===== src/Storage/Segments/Roll/Progress.antt =====
-- A segment that is full does not stop the committer: `roll`, then `append_batch`
-- (logdb/src/storage/mod.rs, as logdb/src/pipeline/committer.rs calls them).
use lv_logdb.Prelude.{
  ℕ, suc, ◌+◌, ◌-◌, ◌^◌, ◌≤◌, ◌<◌, ◌≡◌, ◌∙◌, inl, inr, false, Option, none, some, Bytes, length,
  arith, ok,
}
use lv_logdb.Format.{record_size}
use lv_logdb.Ring.{Ring}
use lv_logdb.Storage.Segments.{SegmentManager}
use lv_logdb.Storage.Segments.Manager.{IsManager}
use lv_logdb.Storage.Segments.Append.{append_batch, view_at}
use lv_logdb.Storage.Segments.Append.Loop.{AllViews}
use lv_logdb.Storage.Segments.Append.Stored.{IsRaw, Appended, append_batch-Appended}
use lv_logdb.Storage.Segments.Roll.{roll}
use lv_logdb.Storage.Segments.Roll.Rolled.{roll-IsRolled}

-- However full the active segment is: if the first record of a batch fits behind the header of an
-- empty segment, then `roll` followed by `append_batch` succeeds and writes at least that record. The
-- manager is in order and makes no frames, the size of a segment is below 2^63 and the second segment
-- id from here below 2^32, and the records have the ranges of their field types.
pub roll-append_batch :
    (crc32c : Bytes → ℕ) (elapsed : ℕ → Option ℕ) (encode_payload : Bytes → Option Bytes) (r : Ring)
    (from to base checkpoint : ℕ) (m : SegmentManager)
    → IsManager m
    → m.compressed ≡ false
    → m.key_id ≡ none
    → m.active_id + 2 < 2 ^ 32
    → m.segment_size < 2 ^ 63
    → 128 + record_size (length (view_at r from).content) ≤ m.segment_size
    → from ≤ to
    → AllViews r from (to + 1 - from)
    → (m' : SegmentManager) × (roll crc32c elapsed m base checkpoint ≡ (ok tt, m'))
      × (k : ℕ) × (m'' : SegmentManager) × (append_batch crc32c encode_payload r from to m'
          ≡ some (ok (from + k), m''))
      × Appended crc32c r from to (suc k) m' m''
roll-append_batch crc32c elapsed encode_payload r from to base checkpoint m i plain no_key small
      size room asked valid =
    let rolled = roll-IsRolled crc32c elapsed m base checkpoint i (omega arith) in
    let m' = rolled.0 in
    let f = rolled.2 in
    let layout : IsRaw m' = (f.same_layout ∙ plain, f.same_key ∙ no_key) in
    elim (append_batch-Appended crc32c r encode_payload from to m' f.valid layout
      (omega (arith, f.next_id)) (omega (arith, f.same_size)) (omega (arith, f.empty, f.same_size))
      asked valid) [
        | inl no_room ↦ absurd (omega (arith, no_room.1, f.empty, f.same_size))
        | inr done ↦ (m', rolled.1, done.0, done.1, done.2, done.3)
      ]
