-- ===== src/Recovery/Shard/Opened.antt =====
-- The manager that recovery (logdb/src/recovery.rs) opens on the last segment.
use lv_logdb.Prelude.{
  ℕ, ◌+◌, ◌≤◌, ◌<◌, ◌≡◌, ◌≢◌, refl, ap, ◌∙◌, ◌⊎◌, inl, inr, Bool, false, Option, none, List, Bytes,
  length, arith, ℕ_discrete, find-put_self, find-put_ne,
}
use native.Mathlib.Decide.{dec_lt}
use lv_logdb.Format.Header.{SegmentHeader}
use lv_logdb.Recovery.Scan.{Scan}
use lv_logdb.Recovery.Shard.{after_scan}
use lv_logdb.Storage.Disk.{Dir, file_of, content_of, bytes_of, dirty_of, at_risk}
use lv_logdb.Storage.Disk.Distinct.{Distinct, Distinct-put}
use lv_logdb.Storage.Segments.{RetentionPolicy}
use lv_logdb.Storage.Segments.Manager.{IsManager}
use lv_logdb.Storage.Segments.Open.{open_existing}
use lv_logdb.Storage.Segments.Roll.Rolled.{HasStride-fresh_index}

module _ (id : ℕ) (t : Scan) (dir : Dir) where
  pub content_of-after_scan : content_of id (after_scan id t dir) ≡ t.kept
  content_of-after_scan = ap bytes_of (find-put_self ℕ_discrete id _ dir)

  pub file_of-after_scan : (j : ℕ) → j ≢ id → file_of j (after_scan id t dir) ≡ file_of j dir
  file_of-after_scan j n = find-put_ne ℕ_discrete j id _ dir n

  -- The files before the last one are on stable storage, and no file stands behind it.
  pub open_existing-IsManager :
      (index_files : List (ℕ × Bytes)) (header : SegmentHeader) (segment_size : ℕ)
      (hash_init : Bytes) (hash_enabled : Bool) (key_id : Option ℕ) (retention : RetentionPolicy)
      → Distinct dir
      → ((j : ℕ) → id < j → file_of j dir ≡ none)
      → ((j : ℕ) → j < id → at_risk j dir ≡ false)
      → 128 ≤ t.last_valid_offset
      → length t.kept ≡ t.last_valid_offset
      → length t.last_hash ≡ 32
      → length hash_init ≡ 32
      → 0 < segment_size
      → IsManager (
          open_existing
            (after_scan id t dir)
            index_files
            id
            t.last_valid_offset
            header
            segment_size
            t.last_hash
            hash_init
            hash_enabled
            key_id
            retention)
  unfolding open_existing
  open_existing-IsManager index_files header segment_size hash_init hash_enabled key_id retention
        distinct ends safe low size hash_in init_in some_size =
      record {
        path_is = refl;
        header_in = low;
        sized = ap (λ (b : Bytes). length b) content_of-after_scan ∙ size;
        ahead =
            file_of-after_scan (id + 1) (λ e. absurd (omega arith)) ∙ ends (id + 1) (omega arith);
        beyond = λ n.
            file_of-after_scan (id + 2 + n) (λ e. absurd (omega arith))
            ∙ ends (id + 2 + n) (omega arith);
        covered =
            λ j. elim (ℕ_discrete j id) [ yes here ↦ inr (inr (omega arith)) | no n ↦ covered j n ];
        distinct = Distinct-put id _ dir distinct;
        strided = HasStride-fresh_index _ key_id;
        hash_init_in = init_in;
        last_hash_in = hash_in;
        layout = tt;
        some_size = some_size;
      }
    where
      covered : (j : ℕ) → j ≢ id → (at_risk j (after_scan id t dir) ≡ false) ⊎ (⊥ ⊎ (id ≤ j))
      covered j n = elim (dec_lt j id) [
        | yes below ↦ inl (ap dirty_of (file_of-after_scan j n) ∙ safe j below)
        | no above ↦ inr (inr (omega arith))
      ]
