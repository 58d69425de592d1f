-- ===== src/Storage/Segments/Sync/Forgets.antt =====
-- What `sync_all` of logdb/src/storage/mod.rs does when a segment that waits for its sync was deleted.
use lv_logdb.Prelude.{ℕ, ◌≡◌, ◌≢◌, refl, ap, ◌∙◌, true, none, List, [], ◌∷◌, ok, err}
use lv_logdb.Storage.Disk.{file_of, dirty_of, at_risk, fsync_path, fdatasync}
use lv_logdb.Storage.Disk.Files.{file_of-fdatasync_ne}
use lv_logdb.Storage.Segments.{SegmentManager, io}
use lv_logdb.Storage.Segments.Sync.{sync_paths, sync_end, sync_all}

-- Where the first segment that waits for its sync is missing, `sync_all` fails. The call after it
-- succeeds all the same, and each other file that was at risk, and is not the active one, still is.
pub sync_all-forgets :
    (m : SegmentManager) (p id : ℕ) (ps : List ℕ)
    → m.pending_fsync ≡ p ∷ ps
    → file_of p m.dir ≡ none
    → id ≢ m.active.path
    → at_risk id m.dir ≡ true
    → (m1 : SegmentManager) × (m2 : SegmentManager) × (sync_all m ≡ (err io, m1))
      × (sync_all m1 ≡ (ok tt, m2))
      × (at_risk id m2.dir ≡ true)
unfolding sync_all sync_paths fsync_path
sync_all-forgets m p id ps waiting missing other risk =
    let fails : sync_paths (p ∷ ps) m.dir ≡ (err io, m.dir) =
      rw (sync_paths, fsync_path, missing) refl in
    (
      record m { pending_fsync = [] },
      record m { pending_fsync = []; dir = fdatasync m.active.path m.dir },
      ap (λ w. sync_end m (sync_paths w m.dir)) waiting ∙ ap (sync_end m) fails,
      refl,
      ap dirty_of (file_of-fdatasync_ne id m.active.path m.dir other) ∙ risk,
    )
