-- ===== src/Storage/Segments/Roll/Stale.antt =====
-- The base of a segment that was made ahead of time (`maybe_prepare_next` and `roll` of
-- logdb/src/storage/mod.rs).
use lv_logdb.Prelude.{ℕ, ◌≡◌, refl, sym, ap, ◌∙◌, Option, some, Bytes, ok, err}
use lv_logdb.Storage.Disk.{Dir}
use lv_logdb.Storage.Segments.{SegmentManager, ActiveSegment, is_some}
use lv_logdb.Storage.Segments.Append.{maybe_prepare_next}
use lv_logdb.Storage.Segments.Roll.{
  Done, in_dir, backfill_header_ts, save_active_index, swap_of, swap, roll_sealed, roll_end, roll,
}

module _ (crc32c : Bytes → ℕ) (elapsed : ℕ → Option ℕ) where
  swap-ignores :
      (m : SegmentManager) (p : ℕ × ActiveSegment) (base base' : ℕ)
      → m.prepared_segment ≡ some p
      → swap crc32c m base ≡ swap crc32c m base'
  unfolding swap
  swap-ignores m p base base' e = ap (swap_of crc32c m base) e ∙ sym (ap (swap_of crc32c m base') e)

  sealed-ignores :
      (m : SegmentManager) (p : ℕ × ActiveSegment) (base base' : ℕ) (d : Done Dir)
      → m.prepared_segment ≡ some p
      → roll_sealed crc32c elapsed base (in_dir m d) ≡ roll_sealed crc32c elapsed base' (in_dir m d)
  sealed-ignores m p base base' (err x, dir) e = refl
  sealed-ignores m p base base' (ok u, dir) e =
      swap-ignores (save_active_index (record m { dir = dir })) p base base' e

  -- Once a segment is prepared, it stays the prepared one whatever number the next record has, and
  -- `roll` does the same for every base that it is given: the segment that becomes active keeps
  -- the base of the time when it was prepared, although records may have gone to the old one since.
  pub roll-ignores :
      (m : SegmentManager) (p : ℕ × ActiveSegment) (next_local_seq base base' checkpoint : ℕ)
      → m.prepared_segment ≡ some p
      → (maybe_prepare_next crc32c m next_local_seq ≡ some (ok tt, m))
        × (roll crc32c elapsed m base checkpoint ≡ roll crc32c elapsed m base' checkpoint)
  unfolding maybe_prepare_next roll
  roll-ignores m p next_local_seq base base' checkpoint e = (
    rw (maybe_prepare_next, ap is_some e) refl,
    ap (roll_end crc32c elapsed checkpoint)
        (sealed-ignores m p base base' (backfill_header_ts crc32c m.active m.dir) e),
  )
