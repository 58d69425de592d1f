-- ===== src/Tests/Segments.antt =====
-- Segment files (logdb/src/storage/mod.rs): a fresh manager takes a record, rolls, syncs and deletes.
use lv_logdb.Prelude.{
  ℕ, suc, ◌+◌, ◌-◌, ◌^◌, ◌<◌, ◌≡◌, ◌⊎◌, inl, refl, sym, append-nil, take, drop, remove, true, false,
  Option, none, some, [], ◌∷◌, ◌++◌, Bytes, replicate, length, arith, ok, err, ℕ_discrete, find,
}
use lv_logdb.Format.{record_size}
use lv_logdb.Format.Record.{IsView}
use lv_logdb.Ring.{Ring, init}
use lv_logdb.Ring.Slot.{Slot, fresh, producer_write, read}
use lv_logdb.Format.Header.{SegmentHeader, IsHeader, serialize, deserialize, first_segment}
use lv_logdb.Recovery.Scan.{Segment, Scan, scan_raw}
use lv_logdb.Recovery.Scan.Complete.{stored, Consecutive}
use lv_logdb.Recovery.Scan.Recovered.{IsRecovered}
use lv_logdb.Storage.Disk.{SegFile, Dir, content_of, at_risk, total_size}
use lv_logdb.Storage.Segments.{SegmentManager, keep_all, full, io, open_segment}
use lv_logdb.Storage.Segments.Append.Refines.{Holds, opened, append_batch-Holds}
use lv_logdb.Storage.Segments.Sync.{sync_all}
use lv_logdb.Storage.Segments.Sync.Durable.{Missing, sync_all-Durable}
use lv_logdb.Storage.Segments.Sync.Forgets.{sync_all-forgets}
use lv_logdb.Storage.Segments.Roll.{
  roll, evict_until_under, evict_loop, sort_ids, insert_id, truncate_before_checkpoint,
  backfill_header_ts,
}
use lv_logdb.Storage.Segments.Roll.Swapped.{IsRolled}
use lv_logdb.Storage.Segments.Roll.Rolled.{roll-IsRolled}
use lv_logdb.Storage.Segments.Roll.Progress.{roll-append_batch}
use lv_logdb.Storage.Segments.Roll.Evict.{Evicted, evict_until_under-Evicted}
use lv_logdb.Storage.Segments.Roll.Truncate.{KeptOrBefore, truncate_before_checkpoint-KeptOrBefore}
use lv_logdb.Storage.Segments.Roll.Backfill.{timed, backfill_header_ts-deserialize}
use lv_logdb.Storage.Segments.Manager.{IsManager}
use lv_logdb.Storage.Segments.Open.{create_manager, created_header}
use lv_logdb.Storage.Segments.Open.Created.{created, create_manager-IsManager}
use lv_logdb.Storage.Segments.Append.{append_batch, view_at}
use lv_logdb.Storage.Segments.Append.Loop.{AllViews, views}
use lv_logdb.Storage.Segments.Append.Stored.{Appended, append_batch-Appended}
use lv_logdb.Tests.Data.{test_crc, test_crc-small, test_hash, test_key}

abbrev pub fresh_manager : SegmentManager
fresh_manager = created test_crc 4096 false false none test_key keep_all 40

fresh_manager-IsManager :
    (create_manager test_crc [] [] 4096 false false none test_key keep_all 40 ≡ some fresh_manager)
    × IsManager fresh_manager
fresh_manager-IsManager =
    create_manager-IsManager test_crc 4096 false false none test_key keep_all 40 refl (omega arith)

-- A ring whose slots all hold the record 40.
abbrev pub slot : Slot
slot = producer_write fresh 40 1000 (1 ∷ 2 ∷ [])

abbrev pub ring : Ring
ring = record (init 16 false 40) { slots = λ i. slot }

abbrev pub no_frames : Bytes → Option Bytes
no_frames bytes = none

slot-IsView : IsView 40 (view_at ring 40)
unfolding read producer_write fresh
slot-IsView = record {
  sequence_in = omega arith;
  timestamp_in = omega arith;
  hash_in = refl;
  size_in = omega arith;
}

pub one_view : AllViews ring 40 (40 + 1 - 40)
unfolding AllViews read producer_write
one_view = (slot-IsView, tt)

append_batch-Appended_example :
    ((append_batch test_crc no_frames ring 40 40 fresh_manager ≡ some (err full, fresh_manager))
      × (4096 < 128 + record_size (length (view_at ring 40).content)))
    ⊎ ((k : ℕ) × (m' : SegmentManager) × (append_batch test_crc no_frames ring 40 40 fresh_manager
          ≡ some (ok (40 + k), m'))
        × Appended test_crc ring 40 40 (suc k) fresh_manager m')
append_batch-Appended_example =
    append_batch-Appended test_crc ring no_frames 40 40 fresh_manager fresh_manager-IsManager.1
      (refl, refl) (omega arith) (omega arith) (omega arith) (omega arith) one_view

-- What the scan of the active file starts from.
abbrev scanned : SegmentManager → Segment
scanned m = record {
  file = content_of m.active_id m.dir;
  segment_id = 1;
  base_sequence = 40;
  prev_last_hash = replicate 32 0;
  hash_enabled = false;
  chain_key = test_key;
  shard_bits = 0;
}

one_record :
    Consecutive test_crc test_hash
      (scanned fresh_manager)
      40
      (replicate 32 0)
      ([] ++ views ring 40 (40 + 1 - 40))
unfolding views read producer_write
one_record = (refl, slot-IsView, λ on. absurd cc, tt)

abbrev first_header : SegmentHeader
first_header = created_header false false none test_key 40

first_header-IsHeader : IsHeader (timed first_header fresh_manager.active)
unfolding first_segment
first_header-IsHeader = record {
  version_in = omega arith;
  flags_in = omega arith;
  hash_algo_in = omega arith;
  hash_init_in = refl;
  base_sequence_in = omega arith;
  partition_id_in = omega arith;
  segment_id_in = omega arith;
  min_timestamp_in = omega arith;
  max_timestamp_in = omega arith;
  prev_last_hash_in = refl;
  record_format_in = omega arith;
  encryption_key_id_in = omega arith;
}

abbrev header : Bytes
header = content_of 1 fresh_manager.dir

append_batch-Holds_example :
    (append_batch test_crc no_frames ring 40 40 fresh_manager ≡ some (err full, fresh_manager))
    ⊎ ((k : ℕ) × (m' : SegmentManager) × (append_batch test_crc no_frames ring 40 40 fresh_manager
          ≡ some (ok (40 + k), m'))
        × Holds test_crc test_hash (scanned fresh_manager) m' header ([] ++ views ring 40 (suc k))
        × (t : Scan) × (scan_raw test_crc test_hash
              (opened test_crc test_hash (scanned fresh_manager) m')
            ≡ some t)
        × IsRecovered test_crc test_hash
            (opened test_crc test_hash (scanned fresh_manager) m')
            header
            ([] ++ views ring 40 (suc k))
            0
            t)
unfolding stored
append_batch-Holds_example =
    append_batch-Holds test_crc test_hash (scanned fresh_manager) no_frames ring 40 40 40
      fresh_manager header [] test_crc-small fresh_manager-IsManager.1 (refl, refl) (omega arith)
      (omega arith) (omega arith) (omega arith) one_view fresh_manager-IsManager.1.sized
      (sym (append-nil header)) one_record (inl refl)

sync_all-Durable_example :
    ((m' : SegmentManager) × (sync_all fresh_manager ≡ (err io, m')) × Missing [] fresh_manager.dir)
    ⊎ ((m' : SegmentManager) × (sync_all fresh_manager ≡ (ok tt, m'))
        × (at_risk 1 m'.dir ≡ false)
        × (content_of 1 m'.dir ≡ content_of 1 fresh_manager.dir)
        × (m'.pending_fsync ≡ [])
        × IsManager m')
sync_all-Durable_example = sync_all-Durable fresh_manager 1 fresh_manager-IsManager.1 (omega arith)

abbrev no_age : ℕ → Option ℕ
no_age id = none

roll-IsRolled_example :
    (m' : SegmentManager) × (roll test_crc no_age fresh_manager 41 7 ≡ (ok tt, m'))
    × IsRolled fresh_manager m'
roll-IsRolled_example =
    roll-IsRolled test_crc no_age fresh_manager 41 7 fresh_manager-IsManager.1 (omega arith)

-- Three segments, of three bytes, one byte and two.
abbrev file : Bytes → SegFile
file content = record { content = content; dirty = true }

abbrev three_files : Dir
three_files = (2, file (1 ∷ [])) ∷ (1, file (1 ∷ 2 ∷ 3 ∷ [])) ∷ (3, file (1 ∷ 2 ∷ [])) ∷ []

evict_until_under-Evicted_example :
    (dir' : Dir) × (evict_until_under 3 4 three_files ≡ (ok tt, dir'))
    × Evicted 3 4 three_files dir'
unfolding find ℕ_discrete
evict_until_under-Evicted_example =
    evict_until_under-Evicted 3 4 three_files (refl, (refl, (refl, tt)))

evicted_oldest :
    evict_until_under 3 4 three_files ≡ (ok tt, (2, file (1 ∷ [])) ∷ (3, file (1 ∷ 2 ∷ [])) ∷ [])
unfolding evict_until_under evict_loop sort_ids insert_id total_size find remove ℕ_discrete
evicted_oldest = refl

truncate_before_checkpoint-KeptOrBefore_example :
    KeptOrBefore test_crc 3 100 three_files
      (truncate_before_checkpoint test_crc 3 100 (2 ∷ 1 ∷ 3 ∷ []) three_files)
      1
truncate_before_checkpoint-KeptOrBefore_example =
    truncate_before_checkpoint-KeptOrBefore test_crc 3 100 (2 ∷ 1 ∷ 3 ∷ []) three_files 1

backfill_header_ts-deserialize_example :
    (dir' : Dir) × (backfill_header_ts test_crc fresh_manager.active fresh_manager.dir
      ≡ (ok tt, dir'))
    × (deserialize test_crc (take 128 (content_of 1 dir'))
        ≡ ok (record (timed first_header fresh_manager.active) { prev_last_hash = replicate 32 0 }))
    × (drop 128 (content_of 1 dir') ≡ [])
unfolding serialize find ℕ_discrete
backfill_header_ts-deserialize_example =
    backfill_header_ts-deserialize test_crc fresh_manager.active fresh_manager.dir first_header
      (replicate 32 0) [] test_crc-small first_header-IsHeader refl (sym (append-nil header))

-- The first of two segments that wait was deleted.
abbrev lost_one : SegmentManager
lost_one = record fresh_manager {
  dir = (2, file (1 ∷ [])) ∷ fresh_manager.dir;
  pending_fsync = 3 ∷ 2 ∷ [];
}

sync_all-forgets_example :
    (m1 : SegmentManager) × (m2 : SegmentManager) × (sync_all lost_one ≡ (err io, m1))
    × (sync_all m1 ≡ (ok tt, m2))
    × (at_risk 2 m2.dir ≡ true)
unfolding find ℕ_discrete
sync_all-forgets_example = sync_all-forgets lost_one 3 2 (2 ∷ []) refl refl (λ e. omega arith) refl

roll-append_batch_example :
    (m' : SegmentManager) × (roll test_crc no_age fresh_manager 40 0 ≡ (ok tt, m'))
    × (k : ℕ) × (m'' : SegmentManager) × (append_batch test_crc no_frames ring 40 40 m'
        ≡ some (ok (40 + k), m''))
    × Appended test_crc ring 40 40 (suc k) m' m''
unfolding read producer_write fresh
roll-append_batch_example =
    roll-append_batch test_crc no_age no_frames ring 40 40 40 0 fresh_manager
      fresh_manager-IsManager.1 refl refl (omega arith) (omega arith) (omega arith) (omega arith)
      one_view

-- Segment 2 was prepared with the base 45.
abbrev prepared : SegmentManager
prepared = record fresh_manager {
  prepared_segment = some (2, open_segment 2 128 45 (2 ^ 64 - 1) 0 false);
}
