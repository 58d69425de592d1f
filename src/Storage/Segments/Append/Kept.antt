-- ===== src/Storage/Segments/Append/Kept.antt =====
-- `append_batch` of logdb/src/storage/mod.rs keeps the state of a manager and its directory in order.
use lv_logdb.Prelude.{
  ℕ, ◌+◌, ◌-◌, ◌*◌, ◌/◌, ◌%◌, ◌^◌, ◌<◌, ◌≡◌, ◌≢◌, refl, ap, subst, ◌∙◌, inl, inr, true, Option,
  none, some, Option-cases, ◌++◌, Bytes, length, ltb, Bool-cases, ne→==-false, arith, length-append,
  ok, ℕ_discrete, put, find-put_self, find-put_ne,
}
use native.Mathlib.Nat.{mod-eq_of_lt}
use lv_logdb.Format.Header.{SegmentHeader, serialize}
use lv_logdb.Format.Header.RoundTrip.{length-serialize}
use lv_logdb.Storage.Disk.{SegFile, file_of, content_of, bytes_of, write_at}
use lv_logdb.Storage.Disk.Files.{
  splice_end, file_of-write_at_ne, content_of-write_at, create_file_new,
}
use lv_logdb.Shard.{encode_record_id}
use lv_logdb.Storage.Disk.Distinct.{Distinct-put, Distinct-write_at}
use lv_logdb.Storage.Index.{SparseIndex}
use lv_logdb.Storage.Segments.{SegmentManager, is_some, new_header, open_segment}
use lv_logdb.Storage.Segments.Manager.{IsManager, HasStride, Ahead, covered_same, Ahead-other}
use lv_logdb.Storage.Segments.Append.{create, prepare, maybe_prepare_next}
use lv_logdb.Storage.Segments.Append.Loop.{touched}

pub touched-IsManager :
    (m : SegmentManager) (a b c : ℕ) (index : Option SparseIndex)
    → IsManager m
    → HasStride index
    → IsManager (touched m a b index c)
touched-IsManager m a b c index i h = record {
  path_is = i.path_is;
  header_in = i.header_in;
  sized = i.sized;
  ahead = i.ahead;
  beyond = i.beyond;
  distinct = i.distinct;
  covered = i.covered;
  strided = h;
  hash_init_in = i.hash_init_in;
  last_hash_in = i.last_hash_in;
  layout = i.layout;
  some_size = i.some_size;
}

-- The state after `bytes` go to the end of the active file.
abbrev pub wrote : SegmentManager → Bytes → SegmentManager
wrote m bytes = record m {
  dir = write_at m.active.path m.active.offset bytes m.dir;
  active = record m.active { offset = m.active.offset + length bytes };
}

pub wrote-content :
    (m : SegmentManager) (bytes : Bytes)
    → IsManager m
    → content_of m.active_id (wrote m bytes).dir ≡ content_of m.active_id m.dir ++ bytes
wrote-content m bytes i = rw (← i.path_is) (
    content_of-write_at m.active.path m.active.offset bytes m.dir
    ∙ splice_end (content_of m.active.path m.dir) bytes m.active.offset (rw i.path_is i.sized))

pub wrote-IsManager : (m : SegmentManager) (bytes : Bytes) → IsManager m → IsManager (wrote m bytes)
wrote-IsManager m bytes i =
    let other : (j : ℕ) → j ≢ m.active_id → file_of j (wrote m bytes).dir ≡ file_of j m.dir =
      (λ j n. file_of-write_at_ne j m.active.path m.active.offset bytes m.dir (rw i.path_is n)) in
    record {
      path_is = i.path_is;
      header_in = omega (arith, i.header_in);
      sized =
          ap length (wrote-content m bytes i)
          ∙ length-append (content_of m.active_id m.dir) bytes
          ∙ ap (λ n. n + length bytes) i.sized;
      ahead =
          Ahead-other m.prepared_segment (m.active_id + 1) m.dir (wrote m bytes).dir
            (other (m.active_id + 1) (λ e. omega arith)) i.ahead;
      beyond = λ n. other (m.active_id + 2 + n) (λ e. omega arith) ∙ i.beyond n;
      distinct = Distinct-write_at m.active.path m.active.offset bytes m.dir i.distinct;
      covered = λ id. elim (ℕ_discrete id m.active_id) [
        | yes p ↦ inr (inr (omega arith))
        | no n ↦ covered_same id m.dir _ (other id n) (i.covered id)
      ];
      strided = i.strided;
      hash_init_in = i.hash_init_in;
      last_hash_in = i.last_hash_in;
      layout = i.layout;
      some_size = i.some_size;
    }

module _ (crc32c : Bytes → ℕ) where
  -- A new file behind the others, with the header of a new segment.
  unfoldable pub with_file : SegmentManager → SegmentHeader → SegmentManager
  with_file m header = record m {
    dir =
        put ℕ_discrete (m.active_id + 1)
          (record { content = serialize crc32c header m.last_hash; dirty = true }) m.dir;
  }

  pub create-with_file :
      (m : SegmentManager) (header : SegmentHeader)
      → file_of (m.active_id + 1) m.dir ≡ none
      → create crc32c m (m.active_id + 1) header
        ≡ some (
          with_file m header,
          open_segment (m.active_id + 1) 128 header.base_sequence (2 ^ 64 - 1) 0 m.compressed,
        )
  unfolding create with_file
  create-with_file m header free =
      rw
        (create, create_file_new (m.active_id + 1) (serialize crc32c header m.last_hash) m.dir free)
        refl

  prepared-IsManager :
      (m : SegmentManager) (header : SegmentHeader)
      → IsManager m
      → length header.hash_init ≡ 32
      → IsManager (record (with_file m header) {
        prepared_segment = some (
          m.active_id + 1,
          open_segment (m.active_id + 1) 128 header.base_sequence (2 ^ 64 - 1) 0 m.compressed,
        );
      })
  unfolding with_file
  prepared-IsManager m header i h =
      let file : SegFile = record { content = serialize crc32c header m.last_hash; dirty = true } in
      let dir' = put ℕ_discrete (m.active_id + 1) file m.dir in
      let other : (j : ℕ) → j ≢ m.active_id + 1 → file_of j dir' ≡ file_of j m.dir =
        (λ j n. find-put_ne ℕ_discrete j (m.active_id + 1) file m.dir n) in
      let same = other m.active_id (λ e. omega arith) in
      record {
        path_is = i.path_is;
        header_in = i.header_in;
        sized = ap (λ f. length (bytes_of f)) same ∙ i.sized;
        ahead = (
          refl,
          refl,
          refl,
          ap (λ f. length (bytes_of f)) (find-put_self ℕ_discrete (m.active_id + 1) file m.dir)
              ∙ length-serialize crc32c header m.last_hash h i.last_hash_in,
        );
        beyond = λ n. other (m.active_id + 2 + n) (λ e. omega arith) ∙ i.beyond n;
        distinct = Distinct-put (m.active_id + 1) file m.dir i.distinct;
        covered = λ id. elim (ℕ_discrete id (m.active_id + 1)) [
          | yes p ↦ inr (inr (omega arith))
          | no n ↦ covered_same id m.dir _ (other id n) (i.covered id)
        ];
        strided = i.strided;
        hash_init_in = i.hash_init_in;
        last_hash_in = i.last_hash_in;
        layout = refl;
        some_size = i.some_size;
      }

  -- The next segment is made, or not: the active one stays as it is.
  pub record StaysActive (m m' : SegmentManager) : Type 0 where
    pub valid : IsManager m'
    pub active : m'.active ≡ m.active
    pub active_id : m'.active_id ≡ m.active_id
    pub content : content_of m.active_id m'.dir ≡ content_of m.active_id m.dir

  StaysActive-refl : (m : SegmentManager) → IsManager m → StaysActive m m
  StaysActive-refl m i = record { valid = i; active = refl; active_id = refl; content = refl }

  pub prepare-StaysActive :
      (m : SegmentManager) (next_local_seq : ℕ)
      → IsManager m
      → m.active_id + 1 < 2 ^ 32
      → file_of (m.active_id + 1) m.dir ≡ none
      → (m' : SegmentManager) × (prepare crc32c m ((m.active_id + 1) % 2 ^ 32) next_local_seq
          ≡ (ok tt, m'))
        × StaysActive m m'
  unfolding with_file
  prepare-StaysActive m next_local_seq i small free =
      let header : ℕ → SegmentHeader =
        (λ id. new_header m id (encode_record_id m.shard_id next_local_seq m.shard_bits)) in
      let id : (m.active_id + 1) % 2 ^ 32 ≡ m.active_id + 1 = mod-eq_of_lt small in
      let made = header (m.active_id + 1) in
      let file : SegFile = record { content = serialize crc32c made m.last_hash; dirty = true } in
      (
        record (with_file m made) {
          prepared_segment = some (
            m.active_id + 1,
            open_segment (m.active_id + 1) 128 made.base_sequence (2 ^ 64 - 1) 0 m.compressed,
          );
        },
        ap (λ id. prepare crc32c m id next_local_seq) id
            ∙ rw (prepare, create-with_file m made free) refl,
        record {
          valid = prepared-IsManager m made i (unfold new_header in i.hash_init_in);
          active = refl;
          active_id = refl;
          content =
              ap bytes_of (
                find-put_ne ℕ_discrete m.active_id (m.active_id + 1) file m.dir (λ e. omega arith));
        },
      )

  pub maybe_prepare_next-StaysActive :
      (m : SegmentManager) (next_local_seq : ℕ)
      → IsManager m
      → m.active_id + 1 < 2 ^ 32
      → (m' : SegmentManager) × (maybe_prepare_next crc32c m next_local_seq ≡ some (ok tt, m'))
        × StaysActive m m'
  unfolding maybe_prepare_next
  maybe_prepare_next-StaysActive m next_local_seq i small = elim (Option-cases m.prepared_segment) [
    | inr there ↦ (m, rw (maybe_prepare_next, ap is_some there.1) refl, StaysActive-refl m i)
    | inl none_there ↦
        let full_enough = m.active.offset * 100 % 2 ^ 64 / m.segment_size in
        let some_size = ne→==-false m.segment_size 0 (λ z. omega (arith, i.some_size)) in
        elim (Bool-cases (ltb full_enough 80)) [
          | inl low ↦ (
            m,
            rw (maybe_prepare_next, ap is_some none_there, some_size, low) refl,
            StaysActive-refl m i,
          )
          | inr high ↦
              let free : file_of (m.active_id + 1) m.dir ≡ none =
                subst (λ p. Ahead p (m.active_id + 1) m.dir) none_there i.ahead in
              let p = prepare-StaysActive m next_local_seq i small free in
              (
                p.0,
                rw (maybe_prepare_next, ap is_some none_there, some_size, high) (ap some p.1),
                p.2,
              )
        ]
  ]
