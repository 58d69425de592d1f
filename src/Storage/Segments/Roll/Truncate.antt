-- ===== src/Storage/Segments/Roll/Truncate.antt =====
-- What truncation at a checkpoint (`truncate_before_checkpoint` of logdb/src/storage/mod.rs) deletes.
use lv_logdb.Prelude.{
  ℕ, ◌+◌, ◌≤◌, ◌<◌, ◌≡◌, refl, sym, ap, ◌∙◌, ◌⊎◌, inl, inr, true, false, Option, none, some,
  Bool-cases, List, [], ◌∷◌, Bytes, leb, leb→le, leb-false→lt, ℕ_discrete, find-remove_self,
  find-remove_ne,
}
use lv_logdb.Format.Header.{SegmentHeader}
use lv_logdb.Storage.Disk.{Dir, file_of}
use lv_logdb.Storage.Segments.Roll.{
  remove_file, header_of, read_segment_header, is_before, goes, truncate_before_checkpoint,
}

module _ (crc32c : Bytes → ℕ) where
  -- The file is as it was; or it is deleted, below the active one, and the next segment's header says
  -- that it begins at the checkpoint or before it.
  abbrev pub KeptOrBefore : ℕ → ℕ → Dir → Dir → ℕ → Type 0
  KeptOrBefore active_id checkpoint dir dir' id =
      (file_of id dir' ≡ file_of id dir)
      ⊎ ((file_of id dir' ≡ none)
          × (id < active_id)
          × (h : SegmentHeader) × (read_segment_header crc32c (id + 1) dir ≡ some h)
          × (h.base_sequence ≤ checkpoint))

  is_before-base :
      (o : Option SegmentHeader) (checkpoint : ℕ)
      → is_before crc32c o checkpoint ≡ true
      → (h : SegmentHeader) × (o ≡ some h) × (h.base_sequence ≤ checkpoint)
  is_before-base none checkpoint e = absurd cc
  is_before-base (some h) checkpoint e = (h, refl, leb→le h.base_sequence checkpoint e)

  -- A file that goes has a next segment as the test says.
  goes-before :
      (active_id checkpoint id : ℕ) (dir : Dir)
      → goes crc32c active_id checkpoint id dir ≡ true
      → (id < active_id)
        × (h : SegmentHeader) × (read_segment_header crc32c (id + 1) dir ≡ some h)
        × (h.base_sequence ≤ checkpoint)
  goes-before active_id checkpoint id dir e = elim (Bool-cases (leb active_id id)) [
    | inl high ↦ let stays : false ≡ true = rw high at e in absurd cc
    | inr low ↦
        let before =
          is_before-base (read_segment_header crc32c (id + 1) dir) checkpoint (rw low at e) in
        (leb-false→lt active_id id low, before.0, before.1, before.2)
  ]

  -- One round, in a directory where earlier rounds have deleted files.
  round-KeptOrBefore :
      (active_id checkpoint x : ℕ) (dir now : Dir)
      → ((id : ℕ) → KeptOrBefore active_id checkpoint dir now id)
      → goes crc32c active_id checkpoint x now ≡ true
      → (id : ℕ) → KeptOrBefore active_id checkpoint dir (remove_file x now) id
  unfolding header_of
  round-KeptOrBefore active_id checkpoint x dir now kept e id = elim (ℕ_discrete id x) [
    | no n ↦
        let same = find-remove_ne ℕ_discrete id x now n in
        elim (kept id) [
          | inl as_before ↦ inl (same ∙ as_before)
          | inr gone ↦ inr (same ∙ gone.0, gone.1, gone.2, gone.3, gone.4)
        ]
    | yes here ↦
        let g = goes-before active_id checkpoint x now e in
        elim (kept (x + 1)) [
          | inl as_before ↦ inr (
            rw here (find-remove_self ℕ_discrete x now),
            rw here g.0,
            g.1,
            rw here (ap (header_of crc32c) (sym as_before) ∙ g.2),
            g.3,
          )
          | inr gone ↦
              let unread : header_of crc32c none ≡ some g.1 =
                ap (header_of crc32c) (sym gone.0) ∙ g.2 in
              absurd cc
        ]
  ]

  rounds-KeptOrBefore :
      (active_id checkpoint : ℕ) (ids : List ℕ) (dir now : Dir)
      → ((id : ℕ) → KeptOrBefore active_id checkpoint dir now id)
      → (id : ℕ)
      → KeptOrBefore active_id checkpoint dir
          (truncate_before_checkpoint crc32c active_id checkpoint ids now)
          id
  unfolding truncate_before_checkpoint
  rounds-KeptOrBefore active_id checkpoint [] dir now kept = kept
  rounds-KeptOrBefore active_id checkpoint (x ∷ xs) dir now kept =
      elim (Bool-cases (goes crc32c active_id checkpoint x now)) [
        | inl e ↦
            rw (truncate_before_checkpoint, e)
              (rounds-KeptOrBefore active_id checkpoint xs dir (remove_file x now)
                (round-KeptOrBefore active_id checkpoint x dir now kept e))
        | inr e ↦
            rw (truncate_before_checkpoint, e)
              (rounds-KeptOrBefore active_id checkpoint xs dir now kept)
      ]

  -- Truncation at a checkpoint, in whatever order the directory is listed: a file stays as it was, or
  -- it is deleted, and then it is below the active one and the header of the next segment, read from
  -- the directory before the truncation, has its base at the checkpoint or below.
  pub truncate_before_checkpoint-KeptOrBefore :
      (active_id checkpoint : ℕ) (ids : List ℕ) (dir : Dir) (id : ℕ)
      → KeptOrBefore active_id checkpoint dir
          (truncate_before_checkpoint crc32c active_id checkpoint ids dir)
          id
  truncate_before_checkpoint-KeptOrBefore active_id checkpoint ids dir =
      rounds-KeptOrBefore active_id checkpoint ids dir dir (λ id. inl refl)
