-- ===== src/Storage/Segments/Roll/Rolled.antt =====
-- `roll` of logdb/src/storage/mod.rs succeeds and leaves a fresh segment active.
use lv_logdb.Prelude.{
  ℕ, ◌+◌, ◌^◌, ◌≤◌, ◌<◌, ◌≡◌, refl, sym, ap, subst, ◌∙◌, inl, inr, Bool, true, false, Option, none,
  some, Bool-cases, List, Bytes, length, ltb, arith, ok,
}
use lv_logdb.Storage.Disk.{Dir, file_of, bytes_of, dirty_of}
use lv_logdb.Storage.Index.{SparseIndex, new}
use lv_logdb.Storage.Segments.{SegmentManager, fresh_index}
use lv_logdb.Storage.Segments.Manager.{IsManager, HasStride, Among, Ahead-other, covered_same}
use lv_logdb.Storage.Segments.Roll.{
  in_dir, save_active_index, list_segment_files, truncate_before_checkpoint, delete_end, delete_old,
  roll_end, roll_sealed, roll,
}
use lv_logdb.Storage.Segments.Roll.Pruned.{Pruned, apply_retention-Pruned, truncate-Pruned}
use lv_logdb.Storage.Segments.Roll.Inside.{backfill-Inside, Inside-IsManager}
use lv_logdb.Storage.Segments.Roll.Swapped.{IsRolled, swap-IsRolled}

Pruned-IsManager :
    (m : SegmentManager) (dir : Dir)
    → IsManager m
    → Pruned m.active_id m.dir dir
    → IsManager (record m { dir = dir })
Pruned-IsManager m dir i p =
    let same : (j : ℕ) → m.active_id ≤ j → file_of j dir ≡ file_of j m.dir = (λ j h.
      elim (p.files j) [ inl as_before ↦ as_before | inr gone ↦ absurd (omega (arith, gone.1)) ]) in
    record {
      path_is = i.path_is;
      header_in = i.header_in;
      sized = ap (λ f. length (bytes_of f)) (same m.active_id (omega arith)) ∙ i.sized;
      ahead =
          Ahead-other m.prepared_segment (m.active_id + 1) m.dir dir
            (same (m.active_id + 1) (omega arith)) i.ahead;
      beyond = λ n. same (m.active_id + 2 + n) (omega arith) ∙ i.beyond n;
      covered = λ id. elim (p.files id) [
        | inl as_before ↦ covered_same id m.dir dir as_before (i.covered id)
        | inr gone ↦ inl (ap dirty_of gone.0)
      ];
      distinct = p.distinct;
      strided = i.strided;
      hash_init_in = i.hash_init_in;
      last_hash_in = i.last_hash_in;
      layout = i.layout;
      some_size = i.some_size;
    }

pub HasStride-fresh_index :
    (compressed : Bool) (key_id : Option ℕ) → HasStride (fresh_index compressed key_id)
unfolding new
HasStride-fresh_index true key_id = tt
HasStride-fresh_index false none = omega arith
HasStride-fresh_index false (some k) = tt

-- A new index changes nothing else, and neither does a saved one.
reindexed-IsManager :
    (m : SegmentManager) (index : Option SparseIndex) (count : ℕ) (files : List (ℕ × Bytes))
    → HasStride index
    → IsManager m
    → IsManager (record m { active_index = index; active_index_count = count; index_files = files })
reindexed-IsManager m index count files h i = record {
  path_is = i.path_is;
  header_in = i.header_in;
  sized = i.sized;
  ahead = i.ahead;
  beyond = i.beyond;
  covered = i.covered;
  distinct = i.distinct;
  strided = h;
  hash_init_in = i.hash_init_in;
  last_hash_in = i.last_hash_in;
  layout = i.layout;
  some_size = i.some_size;
}

module _ (crc32c : Bytes → ℕ) (elapsed : ℕ → Option ℕ) where
  delete_old-IsRolled :
      (m0 m : SegmentManager) (checkpoint : ℕ)
      → IsRolled m0 m
      → (m' : SegmentManager) × (delete_old crc32c elapsed checkpoint m ≡ (ok tt, m'))
        × IsRolled m0 m'
  delete_old-IsRolled m0 m checkpoint r =
      let kept = apply_retention-Pruned elapsed m.retention m.active_id m.dir r.valid.distinct in
      let after = record m { dir = kept.0 } in
      let i = Pruned-IsManager m kept.0 r.valid kept.2 in
      let cut =
        truncate_before_checkpoint crc32c m.active_id checkpoint (list_segment_files kept.0)
          kept.0 in
      let done = ap (λ d. delete_end crc32c checkpoint (in_dir m d)) kept.1 in
      let rolled : (s : SegmentManager)
          → IsManager s
          → s.active_id ≡ m.active_id
          → s.active.offset ≡ m.active.offset
          → s.prepared_segment ≡ m.prepared_segment
          → s.pending_fsync ≡ m.pending_fsync
          → s.segment_size ≡ m.segment_size
          → (s.key_id ≡ m.key_id)
            × (s.active.compressed ≡ m.active.compressed)
            × (s.compressed ≡ m.compressed)
          → IsRolled m0 s =
        (λ s v id off ahead wait size lay. record {
          valid = v;
          next_id = id ∙ r.next_id;
          empty = off ∙ r.empty;
          none_ahead = ahead ∙ r.none_ahead;
          waits = subst (Among m0.active_id) (sym wait) r.waits;
          same_size = size ∙ r.same_size;
          same_key = lay.0 ∙ r.same_key;
          same_layout = lay.1 ∙ r.same_layout;
          same_default = lay.2 ∙ r.same_default;
        }) in
      elim (Bool-cases (ltb 0 checkpoint)) [
        | inr off ↦
            (after, done ∙ rw off refl, rolled after i refl refl refl refl refl (refl, refl, refl))
        | inl on ↦ (
          record m { dir = cut },
          done ∙ rw on refl,
          rolled (record m { dir = cut })
              (Pruned-IsManager after cut i (
                truncate-Pruned crc32c m.active_id checkpoint (list_segment_files kept.0) kept.0
                  kept.2.distinct))
              refl refl refl refl refl (refl, refl, refl),
        )
      ]

  -- From a manager in order, with the next segment id below 2^32, `roll` succeeds under each policy of
  -- retention and at each checkpoint, whether the next segment was prepared or not. It leaves a manager
  -- in order whose active segment has the next id and holds nothing but its header, with none
  -- prepared behind it; the segment that was active waits for its sync.
  pub roll-IsRolled :
      (m : SegmentManager) (next_base_sequence checkpoint : ℕ)
      → IsManager m
      → m.active_id + 1 < 2 ^ 32
      → (m' : SegmentManager) × (roll crc32c elapsed m next_base_sequence checkpoint ≡ (ok tt, m'))
        × IsRolled m m'
  unfolding roll
  roll-IsRolled m next_base_sequence checkpoint i small =
      let sealed =
        backfill-Inside crc32c m.active m.dir
          (rw i.path_is (omega (arith, i.sized, i.header_in))) in
      let m1 = record m { dir = sealed.0 } in
      let i1 = Inside-IsManager m sealed.0 i sealed.2 in
      let m2 = save_active_index m1 in
      let i2 =
        reindexed-IsManager m1 m.active_index m.active_index_count m2.index_files i.strided i1 in
      let swapped = swap-IsRolled crc32c m2 next_base_sequence i2 small in
      let s = swapped.0 in
      let r = swapped.2 in
      let index = fresh_index s.compressed s.key_id in
      let m3 = record s { active_index = index; active_index_count = 0 } in
      let old = delete_old-IsRolled m m3 checkpoint record {
        valid =
            reindexed-IsManager s index 0 s.index_files
              (HasStride-fresh_index s.compressed s.key_id) r.valid;
        next_id = r.next_id;
        empty = r.empty;
        none_ahead = r.none_ahead;
        waits = r.waits;
        same_size = r.same_size;
        same_key = r.same_key;
        same_layout = r.same_layout;
        same_default = r.same_default;
      } in
      (
        old.0,
        ap
              (λ d.
                roll_end crc32c elapsed checkpoint
                  (roll_sealed crc32c elapsed next_base_sequence (in_dir m d)))
              sealed.1
            ∙ ap (roll_end crc32c elapsed checkpoint) swapped.1
            ∙ old.1,
        old.2,
      )
