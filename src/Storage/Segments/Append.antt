-- ===== src/Storage/Segments/Append.antt =====
-- `append_batch` and `maybe_prepare_next` of logdb/src/storage/mod.rs: a batch of records from the
-- ring goes into the active segment, and the next segment is made ahead of time. An outcome of `none`
-- is a panic: a stride or a segment size of zero.
pub mod Loop
pub mod Kept
pub mod Stored
pub mod Refines
use lv_logdb.Prelude.{
  ℕ, zero, suc, ◌+◌, ◌-◌, ◌*◌, ◌/◌, ◌%◌, ◌^◌, Bool, true, false, ◌||◌, Option, none, some, List, [],
  ◌∷◌, ◌++◌, Bytes, to_le, length, ltb, ◌==◌, if◌then◌else◌, Result, ok, err,
}
use lv_logdb.Format.{ReadView, record_size, segment_header_size, frame_header_size}
use lv_logdb.Format.Header.{SegmentHeader, serialize}
use lv_logdb.Format.Record.{record_bytes}
use lv_logdb.Ring.{Ring, slot_index}
use lv_logdb.Ring.Slot.{read}
use lv_logdb.Shard.{encode_record_id}
use lv_logdb.Storage.Disk.{Dir, create_file, write_at}
use lv_logdb.Storage.Index.{SparseIndex, add, should_index}
use lv_logdb.Storage.Segments.{
  SegmentManager, ActiveSegment, SegmentError, full, io, has_room, update_ts_range, is_some,
  new_header, open_segment,
}

-- What a call returns, and the state that it leaves behind.
abbrev pub Outcome : Type 0 → Type 0
Outcome A = Option (Result SegmentError A × SegmentManager)

-- `ring.slot(seq).read()`
abbrev pub view_at : Ring → ℕ → ReadView
view_at r seq = read (r.slots (slot_index r seq))

-- How the loop of `append_batch` ends: with the state, `write_buf[..pos]` and `last_written`.
pub data Batch : Type 0 where
  no_room : Batch
  panicked : Batch
  upto : SegmentManager → Bytes → ℕ → Batch

abbrev pub index_entry : SparseIndex → Bool → ReadView → ℕ → SparseIndex
index_entry idx due view at = if due then add idx view.record_id at view.timestamp_ns else idx

-- `if let Some(idx) = self.active_index.as_mut()`
unfoldable pub index_record : SegmentManager → ReadView → ℕ → Option SegmentManager
index_record m view at = elim m.active_index [
  | none ↦ some m
  | some idx ↦ elim (should_index idx m.active_index_count) [
    | none ↦ none
    | some due ↦ some (record m {
      active_index = some (index_entry idx due view at);
      active_index_count = m.active_index_count + 1;
    })
  ]
]

module _ (crc32c : Bytes → ℕ) where
  -- `ActiveSegment::create` with the bytes of a header
  unfoldable pub create :
      SegmentManager → ℕ → SegmentHeader → Option (SegmentManager × ActiveSegment)
  create m id header = elim (create_file id (serialize crc32c header m.last_hash) m.dir) [
    | none ↦ none
    | some dir ↦ some (
      record m { dir = dir },
      open_segment id segment_header_size header.base_sequence (2 ^ 64 - 1) 0 m.compressed,
    )
  ]

  abbrev pub prepare : SegmentManager → ℕ → ℕ → Result SegmentError (Unit {0}) × SegmentManager
  prepare m new_id next_local_seq =
      let base_sequence = encode_record_id m.shard_id next_local_seq m.shard_bits in
      elim (create m new_id (new_header m new_id base_sequence)) [
        | none ↦ (err io, m)
        | some made ↦ (ok tt, record made.0 { prepared_segment = some (new_id, made.1) })
      ]

  unfoldable pub maybe_prepare_next : SegmentManager → ℕ → Outcome (Unit {0})
  maybe_prepare_next m next_local_seq =
      if is_some m.prepared_segment
      then some (ok tt, m)
      else if m.segment_size == 0
      then none
      else if ltb (m.active.offset * 100 % 2 ^ 64 / m.segment_size) 80
      then some (ok tt, m)
      else some (prepare m ((m.active_id + 1) % 2 ^ 32) next_local_seq)

  -- The loop of `append_batch` over the `n` numbers from `seq` on; `start` is its `start_offset`.
  unfoldable pub append_loop : Ring → ℕ → ℕ → ℕ → SegmentManager → Bytes → ℕ → Batch
  append_loop r start zero seq m raw last = upto m raw last
  append_loop r start (suc n) seq m raw last =
      let view = view_at r seq in
      elim (has_room m.active (length raw + record_size (length view.content)) m.segment_size) [
        | false ↦ if length raw == 0 then no_room else upto m raw last
        | true ↦ elim (index_record m view (start + length raw)) [
          | none ↦ panicked
          | some m' ↦
              append_loop r start n (seq + 1)
                (record m' { active = update_ts_range m'.active view.timestamp_ns })
                (raw ++ record_bytes crc32c view.record_id view) seq
        ]
      ]

module _ (crc32c : Bytes → ℕ) (encode_payload : Bytes → Option Bytes) where
  abbrev write_frame : SegmentManager → ℕ → Bytes → Result SegmentError (Unit {0}) × SegmentManager
  write_frame m start raw = elim (encode_payload raw) [
    | none ↦ (err io, m)
    | some payload ↦
        let header = to_le 4 (length payload) ++ to_le 4 (length raw) in
        let dir = write_at m.active.path start header m.dir in
        (
          ok tt,
          record m {
            dir = write_at m.active.path (start + frame_header_size) payload dir;
            active = record m.active {
              offset = start + frame_header_size + length payload;
              decompressed_offset = m.active.decompressed_offset + length raw;
              frame_number = m.active.frame_number + 1;
            };
          },
        )
  ]

  -- `if pos > 0 { … }`
  unfoldable pub write_batch :
      SegmentManager → ℕ → Bytes → Result SegmentError (Unit {0}) × SegmentManager
  write_batch m start raw =
      if length raw == 0
      then (ok tt, m)
      else if m.active.compressed || is_some m.key_id
      then write_frame m start raw
      else (
        ok tt,
        record m {
          dir = write_at m.active.path start raw m.dir;
          active = record m.active { offset = start + length raw };
        },
      )

  -- The end of `append_batch`, once the batch is written.
  abbrev pub return_last : ℕ → Result SegmentError (Unit {0}) × SegmentManager → Outcome ℕ
  return_last last (err e, m) = some (err e, m)
  return_last last (ok u, m) = elim (maybe_prepare_next crc32c m ((last + 1) % 2 ^ 64)) [
    | none ↦ none
    | some (err e, m') ↦ some (err e, m')
    | some (ok u', m') ↦ some (ok last, m')
  ]

  abbrev pub end_batch : SegmentManager → ℕ → Batch → Outcome ℕ
  end_batch m start no_room = some (err full, m)
  end_batch m start panicked = none
  end_batch m start (upto m' raw last) = return_last last (write_batch m' start raw)

  unfoldable pub append_batch : Ring → ℕ → ℕ → SegmentManager → Outcome ℕ
  append_batch r from to m =
      let start = m.active.offset in
      end_batch m start
        (append_loop crc32c r start (to + 1 - from) from m [] ((from + 2 ^ 64 - 1) % 2 ^ 64))
