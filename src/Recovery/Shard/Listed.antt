-- ===== src/Recovery/Shard/Listed.antt =====
-- The valid segments of a directory whose headers are all good (logdb/src/recovery.rs): the last of them is the last
-- file.
use lv_logdb.Prelude.{
  ℕ, ◌≤◌, ◌<◌, ◌≡◌, refl, ap, subst, ◌∙◌, inl, inr, none, List, [], ◌∷◌, Result, ok, err, Bytes,
  arith,
}
use lv_logdb.Format.Header.{SegmentHeader}
use lv_logdb.Recovery.Shard.{
  ValidSegment, Warning, HeaderReason, add_valid, check_header, valid_segments, last_segment,
}
use lv_logdb.Storage.Disk.{Dir, file_of, content_of}
use lv_logdb.Storage.Disk.Distinct.{Distinct}
use lv_logdb.Storage.Segments.Manager.{Among}
use lv_logdb.Storage.Segments.Roll.{list_segment_files, sort_ids}
use lv_logdb.Storage.Segments.Roll.Listing.{Ascending, Ascending-sort_ids, Among-sort_ids, listed}

abbrev pub ids_of : List ValidSegment → List ℕ
ids_of [] = []
ids_of (v ∷ vs) = v.segment_id ∷ ids_of vs

some_bad : (w : Warning) (ws : List Warning) → (w ∷ ws) ≡ [] → ⊥
some_bad w ws e = absurd cc

add_valid-ids :
    (id : ℕ) (ids : List ℕ) (c : Result HeaderReason SegmentHeader)
    (later : List ValidSegment × List Warning)
    → (later.1 ≡ [] → ids ≡ ids_of later.0)
    → (add_valid id c later).1 ≡ []
    → (id ∷ ids) ≡ ids_of (add_valid id c later).0
add_valid-ids id ids (err reason) later ih e = absurd (some_bad _ [] e)
add_valid-ids id ids (ok h) later ih e = ap (λ js. id ∷ js) (ih e)

valid_segments-ids :
    (crc32c : Bytes → ℕ) (dir : Dir) (ids : List ℕ)
    → (valid_segments crc32c dir ids).1 ≡ []
    → ids ≡ ids_of (valid_segments crc32c dir ids).0
unfolding valid_segments
valid_segments-ids crc32c dir [] good = refl
valid_segments-ids crc32c dir (id ∷ ids) good =
    add_valid-ids id ids (check_header crc32c id (content_of id dir))
      (valid_segments crc32c dir ids) (valid_segments-ids crc32c dir ids) good

le-last_segment :
    (v : ValidSegment) (vs : List ValidSegment) (j : ℕ)
    → Ascending (ids_of (v ∷ vs))
    → Among j (ids_of (v ∷ vs))
    → j ≤ (last_segment v vs).segment_id
le-last_segment v [] j up (inl e) = omega arith
le-last_segment v [] j up (inr m) = elim m [ ]
le-last_segment v (w ∷ ws) j (a, up) (inl e) =
    let more = le-last_segment w ws w.segment_id up (inl refl) in omega (arith, a.0)
le-last_segment v (w ∷ ws) j (a, up) (inr m) = le-last_segment w ws j up m

-- No file stands behind the last one.
pub last_segment-ends :
    (crc32c : Bytes → ℕ) (dir : Dir) (v : ValidSegment) (vs : List ValidSegment) (j : ℕ)
    → Distinct dir
    → valid_segments crc32c dir (sort_ids (list_segment_files dir)) ≡ (v ∷ vs, [])
    → (last_segment v vs).segment_id < j
    → file_of j dir ≡ none
last_segment-ends crc32c dir v vs j distinct good behind =
    let ids : sort_ids (list_segment_files dir) ≡ ids_of (v ∷ vs) =
      valid_segments-ids crc32c dir (sort_ids (list_segment_files dir)) (ap (λ p. p.1) good)
      ∙ ap (λ (p : List ValidSegment × List Warning). ids_of p.0) good in
    elim (listed j dir) [
      | inl absent ↦ absent
      | inr m ↦
          let last =
            le-last_segment v vs j (subst Ascending ids (Ascending-sort_ids dir distinct))
              (subst (Among j) ids (Among-sort_ids j (list_segment_files dir) m)) in
          absurd (omega arith)
    ]
