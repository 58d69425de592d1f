-- ===== src/Storage/Segments/Open/Created.antt =====
-- `SegmentManager::create` of logdb/src/storage/mod.rs on an empty directory.
use lv_logdb.Prelude.{
  ℕ, ◌+◌, ◌-◌, ◌^◌, ◌<◌, ◌≡◌, refl, ap, inl, inr, Bool, true, Option, none, some, [], ◌∷◌, Bytes,
  length, arith, ℕ_discrete, put, find,
}
use lv_logdb.Format.Header.{serialize, zero_hash, first_segment}
use lv_logdb.Format.Header.RoundTrip.{length-serialize}
use lv_logdb.Storage.Disk.{SegFile, file_of, dirty_of, create_file}
use lv_logdb.Storage.Segments.{SegmentManager, RetentionPolicy, open_segment}
use lv_logdb.Storage.Segments.Manager.{IsManager}
use lv_logdb.Storage.Segments.Roll.Rolled.{HasStride-fresh_index}
use lv_logdb.Storage.Segments.Open.{with_active, created_header, create_manager}

module _ (crc32c : Bytes → ℕ) (segment_size : ℕ) (hash_enabled compressed : Bool)
    (key_id : Option ℕ) (hash_init : Bytes) (retention : RetentionPolicy) (base_sequence : ℕ) where
  -- The file of the first segment, and the manager of a directory that holds it alone.
  abbrev pub first_file : SegFile
  first_file = record {
    content =
        serialize crc32c (created_header hash_enabled compressed key_id hash_init base_sequence)
          zero_hash;
    dirty = true;
  }

  abbrev pub created : SegmentManager
  created =
      with_active ((1, first_file) ∷ []) []
        (open_segment 1 128 base_sequence (2 ^ 64 - 1) 0 compressed) 1 segment_size zero_hash
        hash_init hash_enabled key_id retention

  -- In an empty directory, with a hash of 32 bytes to begin with and a segment size that is not zero,
  -- `create` makes the file of segment 1, and what holds of a manager between calls holds of the
  -- one that it returns.
  pub create_manager-IsManager :
      length hash_init ≡ 32
      → 0 < segment_size
      → (create_manager crc32c [] [] segment_size hash_enabled compressed key_id hash_init retention
            base_sequence
          ≡ some created)
        × IsManager created
  unfolding create_manager create_file put find first_segment ℕ_discrete serialize
  create_manager-IsManager l some_size =
      let absent : (j : ℕ) → ¬ (j ≡ 1) → file_of j created.dir ≡ none = (λ j n. ground arith) in
      (
        refl,
        record {
          path_is = refl;
          header_in = omega arith;
          sized =
              length-serialize crc32c
                (created_header hash_enabled compressed key_id hash_init base_sequence) zero_hash l
                refl;
          ahead = absent 2 (λ e. omega arith);
          beyond = λ n. absent (1 + 2 + n) (λ e. omega arith);
          covered = λ id. elim (ℕ_discrete id 1) [
            | yes e ↦ inr (inr (omega arith))
            | no n ↦ inl (ap dirty_of (absent id n))
          ];
          distinct = (refl, tt);
          strided = HasStride-fresh_index compressed key_id;
          hash_init_in = l;
          last_hash_in = refl;
          layout = tt;
          some_size = some_size;
        },
      )
