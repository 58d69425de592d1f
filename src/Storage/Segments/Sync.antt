-- ===== src/Storage/Segments/Sync.antt =====
-- `sync_all` and `drain_pending_fsyncs` of logdb/src/storage/mod.rs: the segments that were rolled over
-- reach stable storage, then the active one.
pub mod Durable
pub mod Forgets
use lv_logdb.Prelude.{ℕ, Option, none, some, List, [], ◌∷◌, Result, ok, err}
use lv_logdb.Storage.Disk.{Dir, fdatasync, fsync_path}
use lv_logdb.Storage.Segments.{SegmentManager, io}
use lv_logdb.Storage.Segments.Roll.{Done, and_then, in_dir}

-- The loop of `sync_all` over the pending paths: the first error ends it.
unfoldable pub sync_paths : List ℕ → Dir → Done Dir
sync_paths [] dir = (ok tt, dir)
sync_paths (p ∷ ps) dir = elim (fsync_path p dir) [
  | none ↦ (err io, dir)
  | some synced ↦ sync_paths ps synced
]

-- What follows that loop.
abbrev pub sync_end : SegmentManager → Done Dir → Done SegmentManager
sync_end m synced =
    and_then (in_dir (record m { pending_fsync = [] }) synced)
      (λ m'. (ok tt, record m' { dir = fdatasync m'.active.path m'.dir }))

unfoldable pub sync_all : SegmentManager → Done SegmentManager
sync_all m = sync_end m (sync_paths m.pending_fsync m.dir)

abbrev pub sync_if_there : ℕ → Dir → Dir
sync_if_there p dir = elim (fsync_path p dir) [ none ↦ dir | some synced ↦ synced ]

unfoldable pub drain_paths : List ℕ → Dir → Dir
drain_paths [] dir = dir
drain_paths (p ∷ ps) dir = drain_paths ps (sync_if_there p dir)

unfoldable pub drain_pending_fsyncs : SegmentManager → SegmentManager
drain_pending_fsyncs m = record m { pending_fsync = []; dir = drain_paths m.pending_fsync m.dir }
