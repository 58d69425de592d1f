-- ===== src/Recovery/Shard/Total.antt =====
-- `recover_shard` (logdb/src/recovery.rs) on any directory, damaged in any way.
use lv_logdb.Prelude.{
  ℕ, ◌≤◌, ◌≡◌, ◌≢◌, refl, ap, Bool, true, ◌||◌, ◌==◌, ◌!=◌, Option, some, List, [], ◌∷◌, Result, ok,
  err, Bytes, length, All, ltb, ltb-false→le, if◌then◌else◌, if_intro, arith,
}
use lv_logdb.Format.{segment_header_size}
use lv_logdb.Format.Header.{SegmentHeader, HeaderError}
use lv_logdb.Recovery.Scan.{Segment, Scan}
use lv_logdb.Recovery.Scan.Total.{scan_raw-IsDone}
use lv_logdb.Recovery.Frames.{scan_last_segment}
use lv_logdb.Recovery.Frames.Total.{scan_frames-IsClosed}
use lv_logdb.Recovery.Decode.{decode_frame_payload}
use lv_logdb.Recovery.Keys.{KeyRing, is_compressed, is_encrypted}
use lv_logdb.Recovery.Shard.{
  RecoveryError, no_segment_files, RecoveryState, ValidSegment, Warning, HeaderReason, bad_header,
  id_mismatch, decrypt_keys_of, add_valid, check_header, valid_segments, last_segment, segment_of,
  recover_scanned, recover_from, recover_dir,
}
use lv_logdb.Recovery.Shard.Opened.{file_of-after_scan}
use lv_logdb.Storage.Disk.{Dir, file_of, content_of}
use lv_logdb.Storage.Segments.{RetentionPolicy}
use lv_logdb.Storage.Segments.Open.{open_existing}
use lv_logdb.Storage.Segments.Roll.{list_segment_files, sort_ids}

-- The scan of either layout returns, with an offset inside the file.
scan_last_segment-returns :
    (crc32c : Bytes → ℕ) (keyed_hash : Bytes → Bytes → Bytes) (seg : Segment)
    (decode : Bytes → Option Bytes) (compressed encrypted : Bool)
    → segment_header_size ≤ length seg.file
    → (t : Scan) × (scan_last_segment crc32c keyed_hash seg decode compressed encrypted ≡ some t)
      × (t.last_valid_offset ≤ length seg.file)
scan_last_segment-returns crc32c keyed_hash seg decode compressed encrypted h =
    if_intro (λ r. (t : Scan) × (r ≡ some t) × (t.last_valid_offset ≤ length seg.file))
      (compressed || encrypted)
      (λ _.
        let (t, e, closed) = scan_frames-IsClosed crc32c keyed_hash seg decode h in
        (t, e, closed.sound.valid_in))
      (λ _. let (t, e, done) = scan_raw-IsDone crc32c keyed_hash seg h in (t, e, done.valid_in))

-- A valid segment has a whole header.
abbrev HasHeader : Dir → ValidSegment → Type 0
HasHeader dir v = segment_header_size ≤ length (content_of v.segment_id dir)

abbrev Fits : Bytes → Result HeaderReason SegmentHeader → Type 0
Fits file (err reason) = Unit
Fits file (ok h) = segment_header_size ≤ length file

check_header-Fits :
    (crc32c : Bytes → ℕ) (id : ℕ) (file : Bytes) → Fits file (check_header crc32c id file)
unfolding check_header
check_header-Fits crc32c id file =
    if_intro (Fits file) (ltb (length file) 128) (λ _. tt)
      (λ long. read (ltb-false→le (length file) 128 long) _)
  where
    read :
        128 ≤ length file
        → (d : Result HeaderError SegmentHeader)
        → Fits file (elim d as (λ k. Result HeaderReason SegmentHeader) [
          | err e ↦ err (bad_header e)
          | ok h ↦ if h.segment_id != id then err (id_mismatch h.segment_id id) else ok h
        ])
    read long (err e) = tt
    read long (ok h) = if_intro (Fits file) (h.segment_id != id) (λ _. tt) (λ _. long)

add_valid-HasHeader :
    (dir : Dir) (id : ℕ) (c : Result HeaderReason SegmentHeader)
    (later : List ValidSegment × List Warning)
    → Fits (content_of id dir) c
    → All (HasHeader dir) later.0
    → All (HasHeader dir) (add_valid id c later).0
add_valid-HasHeader dir id (err reason) later f a = tt
add_valid-HasHeader dir id (ok h) later f a = (f, a)

valid_segments-HasHeader :
    (crc32c : Bytes → ℕ) (dir : Dir) (ids : List ℕ)
    → All (HasHeader dir) (valid_segments crc32c dir ids).0
unfolding valid_segments
valid_segments-HasHeader crc32c dir [] = tt
valid_segments-HasHeader crc32c dir (id ∷ ids) =
    add_valid-HasHeader dir id _ _ (check_header-Fits crc32c id (content_of id dir))
      (valid_segments-HasHeader crc32c dir ids)

last_segment-HasHeader :
    (dir : Dir) (v : ValidSegment) (vs : List ValidSegment)
    → All (HasHeader dir) (v ∷ vs)
    → HasHeader dir (last_segment v vs)
last_segment-HasHeader dir v [] (h, a) = h
last_segment-HasHeader dir v (w ∷ ws) (h, a) = last_segment-HasHeader dir w ws a

no_files :
    (crc32c : Bytes → ℕ) (dir : Dir)
    → (length (list_segment_files dir) == 0) ≡ true
    → (valid_segments crc32c dir (sort_ids (list_segment_files dir))).0 ≡ []
unfolding valid_segments sort_ids
no_files crc32c [] e = refl
no_files crc32c (f ∷ fs) e = absurd (ground arith)

module _ (crc32c : Bytes → ℕ) (keyed_hash : Bytes → Bytes → Bytes)
    (decrypt : Bytes → Bytes → Bytes → Option Bytes) (decode_all : Bytes → Option Bytes)
    (shard_bits segment_size : ℕ) (retention : RetentionPolicy) (encryption_key : Option KeyRing)
    (index_files : List (ℕ × Bytes)) (dir : Dir) where
  abbrev valid : List ValidSegment
  valid = (valid_segments crc32c dir (sort_ids (list_segment_files dir))).0

  -- Recovery fails where no segment is valid; else it goes on in the last valid one.
  abbrev pub Outcome : Result RecoveryError RecoveryState → Type 0
  Outcome (err e) = valid ≡ []
  Outcome (ok st) =
      (first : ValidSegment) × (rest : List ValidSegment) × (valid ≡ first ∷ rest)
      × (st.active_segment_id ≡ (last_segment first rest).segment_id)
      × (st.segment_manager.active_id ≡ st.active_segment_id)
      × (st.active_offset ≤ length (content_of st.active_segment_id dir))
      × ((j : ℕ) → j ≢ st.active_segment_id → file_of j st.segment_manager.dir ≡ file_of j dir)

  recover_from-Outcome :
      (found : List ValidSegment × List Warning)
      → valid ≡ found.0
      → All (HasHeader dir) found.0
      → (r : Result RecoveryError RecoveryState) × (recover_from crc32c keyed_hash decrypt
            decode_all shard_bits segment_size retention encryption_key index_files dir found
          ≡ some r)
        × Outcome r
  unfolding open_existing
  recover_from-Outcome ([], warnings) e h = (_, refl, e)
  recover_from-Outcome (first ∷ rest, warnings) e h =
      let last = last_segment first rest in
      let (t, returned, inside) =
        scan_last_segment-returns crc32c keyed_hash
          (segment_of crc32c keyed_hash decrypt decode_all shard_bits segment_size retention
            encryption_key index_files dir first last)
          (decode_frame_payload decrypt decode_all (is_compressed last.header)
            (is_encrypted last.header) (decrypt_keys_of encryption_key))
          (is_compressed last.header) (is_encrypted last.header)
          (last_segment-HasHeader dir first rest h) in
      (
        _,
        ap
            (recover_scanned crc32c keyed_hash decrypt decode_all shard_bits segment_size retention
              encryption_key index_files dir first rest warnings)
            returned,
        (first, rest, e, refl, refl, inside, file_of-after_scan last.segment_id t dir),
      )

  -- Recovery returns on any directory. It fails only where not even the first header is good, or no segment file is
  -- there; else it goes on in the last segment up to which all headers are good, at an offset inside its file, and no
  -- other file changes.
  pub recover_dir-Outcome :
      (r : Result RecoveryError RecoveryState) × (recover_dir crc32c keyed_hash decrypt decode_all
          shard_bits segment_size retention encryption_key index_files dir
        ≡ some r)
      × Outcome r
  unfolding recover_dir
  recover_dir-Outcome =
      if_intro (λ o. (r : Result RecoveryError RecoveryState) × (o ≡ some r) × Outcome r)
        (length (list_segment_files dir) == 0)
        (λ empty. (err no_segment_files, refl, no_files crc32c dir empty))
        (λ _.
          recover_from-Outcome (valid_segments crc32c dir (sort_ids (list_segment_files dir))) refl
            (valid_segments-HasHeader crc32c dir (sort_ids (list_segment_files dir))))
