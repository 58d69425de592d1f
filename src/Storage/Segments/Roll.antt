-- ===== src/Storage/Segments/Roll.antt =====
-- `roll` of logdb/src/storage/mod.rs, with what it calls: the header of the sealed segment gets its
-- times, the next segment takes its place, and old segments are deleted. `elapsed` is the age of a
-- file, where the operating system tells it.
pub mod Listing
pub mod Evict
pub mod Backfill
pub mod Truncate
pub mod Pruned
pub mod Inside
pub mod Swapped
pub mod Rolled
pub mod Progress
pub mod Stale
use lv_logdb.Prelude.{
  ℕ, ◌+◌, ◌-◌, ◌%◌, ◌^◌, Bool, true, false, ◌||◌, Option, none, some, List, [], ◌∷◌, ◌++◌, Bytes,
  to_le, take, length, ltb, leb, ◌==◌, if◌then◌else◌, Result, ok, err, ℕ_discrete, put, remove, map,
}
use lv_logdb.Format.{header_crc_end, segment_header_size}
use lv_logdb.Format.Header.{SegmentHeader, deserialize}
use lv_logdb.Storage.Disk.{Dir, SegFile, file_of, content_of, write_at, fdatasync, total_size}
use lv_logdb.Storage.Index.{SparseIndex, save, new}
use lv_logdb.Storage.Segments.{
  SegmentManager, ActiveSegment, SegmentError, io, RetentionPolicy, keep_all, max_bytes, max_age,
  fresh_index, new_header,
}
use lv_logdb.Storage.Segments.Append.{create}

-- What a call that returns no value leaves behind.
abbrev pub Done : Type 0 → Type 0
Done S = Result SegmentError (Unit {0}) × S

-- `call?; rest`
abbrev pub and_then : {S : Type 0} → Done S → (S → Done S) → Done S
and_then (err e, m) k = (err e, m)
and_then (ok u, m) k = k m

-- The result of a call on the directory alone.
abbrev pub in_dir : SegmentManager → Done Dir → Done SegmentManager
in_dir m d = (d.0, record m { dir = d.1 })

-- `ActiveSegment::backfill_header_ts`; reading less than the checked bytes is an error.
unfoldable pub backfill_header_ts : (Bytes → ℕ) → ActiveSegment → Dir → Done Dir
backfill_header_ts crc32c a dir =
    let min_written = write_at a.path 56 (to_le 8 a.min_ts) dir in
    let max_written = write_at a.path 64 (to_le 8 a.max_ts) min_written in
    let content = content_of a.path max_written in
    if ltb (length content) header_crc_end then (err io, max_written) else (
      ok tt,
      write_at a.path header_crc_end (to_le 4 (crc32c (take header_crc_end content))) max_written,
    )

-- The index files once an index is saved, unless there is none or it is empty.
unfoldable pub saved_index : Option SparseIndex → ℕ → List (ℕ × Bytes) → List (ℕ × Bytes)
saved_index none path files = files
saved_index (some idx) path files =
    if length idx.entries == 0 then files else put ℕ_discrete path (save idx) files

abbrev pub save_active_index : SegmentManager → SegmentManager
save_active_index m = record m {
  index_files = saved_index m.active_index m.active.path m.index_files;
}

abbrev pub activate : SegmentManager → ℕ → ActiveSegment → SegmentManager
activate m new_id new_active = record m {
  active = new_active;
  active_id = new_id;
  prepared_segment = none;
  pending_fsync = m.pending_fsync ++ (m.active.path ∷ []);
}

-- The fallback: a new segment is made and synced.
abbrev pub start_new : (Bytes → ℕ) → SegmentManager → ℕ → ℕ → Done SegmentManager
start_new crc32c m new_id next_base_sequence =
    elim (create crc32c m new_id (new_header m new_id next_base_sequence)) [
      | none ↦ (err io, m)
      | some made ↦
          (ok tt, record (activate made.0 new_id made.1) { dir = fdatasync new_id made.0.dir })
    ]

-- The segment that was prepared becomes active, or else a new one.
abbrev pub swap_of :
    (Bytes → ℕ) → SegmentManager → ℕ → Option (ℕ × ActiveSegment) → Done SegmentManager
swap_of crc32c m next_base_sequence (some p) = (ok tt, activate m p.0 p.1)
swap_of crc32c m next_base_sequence none =
    start_new crc32c m ((m.active_id + 1) % 2 ^ 32) next_base_sequence

unfoldable pub swap : (Bytes → ℕ) → SegmentManager → ℕ → Done SegmentManager
swap crc32c m next_base_sequence = swap_of crc32c m next_base_sequence m.prepared_segment

-- The ids of the files in the order of the listing, and sorted.
abbrev pub list_segment_files : Dir → List ℕ
list_segment_files dir = map (λ e. e.0) dir

unfoldable pub insert_id : ℕ → List ℕ → List ℕ
insert_id id [] = id ∷ []
insert_id id (j ∷ js) = let rest = insert_id id js in if leb id j then id ∷ j ∷ js else j ∷ rest

unfoldable pub sort_ids : List ℕ → List ℕ
sort_ids [] = []
sort_ids (id ∷ ids) = insert_id id (sort_ids ids)

-- `fs::remove_file`
abbrev pub remove_file : ℕ → Dir → Dir
remove_file id dir = remove ℕ_discrete id dir

-- The loop of `evict_until_under`.
unfoldable pub evict_loop : ℕ → ℕ → List ℕ → ℕ → Dir → Done Dir
evict_loop active_id limit [] total dir = (ok tt, dir)
evict_loop active_id limit (id ∷ ids) total dir = elim (leb active_id id || leb total limit) [
  | true ↦ (ok tt, dir)
  | false ↦ elim (file_of id dir) [
    | none ↦ (err io, dir)
    | some f ↦ evict_loop active_id limit ids (total - length f.content) (remove_file id dir)
  ]
]

unfoldable pub evict_until_under : ℕ → ℕ → Dir → Done Dir
evict_until_under active_id limit dir =
    evict_loop active_id limit (sort_ids (list_segment_files dir)) (total_size dir) dir

abbrev pub is_old : Option ℕ → ℕ → Bool
is_old none age = false
is_old (some e) age = leb age e

-- The loop of `evict_older_than`.
unfoldable pub evict_older_than : (ℕ → Option ℕ) → ℕ → ℕ → List ℕ → Dir → Done Dir
evict_older_than elapsed active_id age [] dir = (ok tt, dir)
evict_older_than elapsed active_id age (id ∷ ids) dir = elim (leb active_id id) [
  | true ↦ (ok tt, dir)
  | false ↦ elim (is_old (elapsed id) age) [
    | false ↦ evict_older_than elapsed active_id age ids dir
    | true ↦ elim (file_of id dir) [
      | none ↦ (err io, dir)
      | some f ↦ evict_older_than elapsed active_id age ids (remove_file id dir)
    ]
  ]
]

unfoldable pub apply_retention : (ℕ → Option ℕ) → RetentionPolicy → ℕ → Dir → Done Dir
apply_retention elapsed keep_all active_id dir = (ok tt, dir)
apply_retention elapsed (max_bytes limit) active_id dir = evict_until_under active_id limit dir
apply_retention elapsed (max_age age) active_id dir =
    evict_older_than elapsed active_id age (list_segment_files dir) dir

module _ (crc32c : Bytes → ℕ) where
  -- The header of a file that is there; `none` stands for each error of `read_segment_header`.
  unfoldable pub header_of : Option SegFile → Option SegmentHeader
  header_of none = none
  header_of (some f) =
      if ltb (length f.content) segment_header_size
      then none
      else elim (deserialize crc32c (take segment_header_size f.content)) [
        | ok h ↦ some h
        | err e ↦ none
      ]

  -- `read_segment_header_by_id`
  abbrev pub read_segment_header : ℕ → Dir → Option SegmentHeader
  read_segment_header id dir = header_of (file_of id dir)

  abbrev pub is_before : Option SegmentHeader → ℕ → Bool
  is_before none checkpoint = false
  is_before (some h) checkpoint = leb h.base_sequence checkpoint

  -- The loop of `truncate_before_checkpoint`, over the ids of the listing.
  -- One round: whether the file goes, and what is left.
  abbrev pub goes : ℕ → ℕ → ℕ → Dir → Bool
  goes active_id checkpoint id dir =
      if leb active_id id then false else is_before (read_segment_header (id + 1) dir) checkpoint

  unfoldable pub truncate_before_checkpoint : ℕ → ℕ → List ℕ → Dir → Dir
  truncate_before_checkpoint active_id checkpoint [] dir = dir
  truncate_before_checkpoint active_id checkpoint (id ∷ ids) dir =
      truncate_before_checkpoint active_id checkpoint ids
        (if goes active_id checkpoint id dir then remove_file id dir else dir)

  -- `if checkpoint > 0 { … }`, once retention is done.
  abbrev pub delete_end : ℕ → Done SegmentManager → Done SegmentManager
  delete_end checkpoint retained = and_then retained (λ m. (
    ok tt,
    if ltb 0 checkpoint
        then record m {
          dir = truncate_before_checkpoint m.active_id checkpoint (list_segment_files m.dir) m.dir;
        }
        else m,
  ))

  module _ (elapsed : ℕ → Option ℕ) where
    -- The end of `roll`: retention, then truncation.
    abbrev pub delete_old : ℕ → SegmentManager → Done SegmentManager
    delete_old checkpoint m =
        delete_end checkpoint (in_dir m (apply_retention elapsed m.retention m.active_id m.dir))

    -- A fresh index for the segment that is now active.
    abbrev pub roll_end : ℕ → Done SegmentManager → Done SegmentManager
    roll_end checkpoint swapped = and_then swapped (λ m.
        delete_old checkpoint
          (record m { active_index = fresh_index m.compressed m.key_id; active_index_count = 0 }))

    -- Sealing, then the swap.
    abbrev pub roll_sealed : ℕ → Done SegmentManager → Done SegmentManager
    roll_sealed next_base_sequence sealed =
        and_then sealed (λ m. swap crc32c (save_active_index m) next_base_sequence)

    unfoldable pub roll : SegmentManager → ℕ → ℕ → Done SegmentManager
    roll m next_base_sequence checkpoint =
        roll_end checkpoint
          (roll_sealed next_base_sequence (in_dir m (backfill_header_ts crc32c m.active m.dir)))
