-- ===== src/Recovery/Shard/Resumed.antt =====
-- What `recover_shard` (logdb/src/recovery.rs) makes of the segment files that a crash left behind.
use lv_logdb.Prelude.{
  ℕ, suc, ◌+◌, ◌-◌, ◌%◌, ◌^◌, ◌<◌, ◌≡◌, ◌≢◌, refl, ap, ◌∙◌, ◌⊎◌, inl, inr, Bool, true, false, ◌||◌,
  ◌==◌, ne→==-false, Option, some, List, [], ◌∷◌, ◌++◌, append-nil, ok, Bytes, take, length,
  length-append, ltb, if◌then◌else◌, arith, bytes_eq, bytes_eq_refl, Bool-cases,
}
use lv_logdb.Format.{ReadView, record_size, segment_header_size}
use lv_logdb.Format.Header.{hash_enabled}
use lv_logdb.Format.Record.{IsView, record_bytes}
use lv_logdb.Recovery.Scan.{Segment, Scan, RecoveryWarning, zero_hash}
use lv_logdb.Recovery.Scan.Complete.{stored, Consecutive}
use lv_logdb.Recovery.Scan.Recovered.{scan_raw-IsRecovered, last_id, last_hash_of}
use lv_logdb.Recovery.Keys.{KeyRing, is_compressed, is_encrypted, mask_chain_key}
use lv_logdb.Recovery.Shard.{
  RecoveryState, ValidSegment, Warning, valid_segments, last_segment, check_continuity, of_scan,
  chain_key_of, segment_of, scan_of, recovered, recover_scanned, recover_dir,
}
use lv_logdb.Recovery.Shard.Listed.{last_segment-ends}
use lv_logdb.Recovery.Shard.Opened.{
  content_of-after_scan, file_of-after_scan, open_existing-IsManager,
}
use lv_logdb.Storage.Disk.{Dir, file_of, content_of, at_risk}
use lv_logdb.Storage.Disk.Distinct.{Distinct}
use lv_logdb.Storage.Segments.{RetentionPolicy}
use lv_logdb.Storage.Segments.Manager.{IsManager}
use lv_logdb.Storage.Segments.Open.{open_existing}
use lv_logdb.Storage.Segments.Roll.{list_segment_files, sort_ids}

-- Step 5 finds nothing, whatever the headers say.
check_continuity-none : (vs : List ValidSegment) → check_continuity zero_hash vs ≡ []
unfolding check_continuity
check_continuity-none [] = refl
check_continuity-none (v ∷ vs) = elim (Bool-cases (bytes_eq v.header.prev_last_hash zero_hash)) [
  | inl same ↦ rw (same, check_continuity-none vs) refl
  | inr differs ↦ rw (differs, bytes_eq_refl zero_hash, check_continuity-none vs) refl
]

some_files :
    (crc32c : Bytes → ℕ) (dir : Dir) (first : ValidSegment) (rest : List ValidSegment)
    → valid_segments crc32c dir (sort_ids (list_segment_files dir)) ≡ (first ∷ rest, [])
    → (length (list_segment_files dir) == 0) ≡ false
unfolding valid_segments sort_ids
some_files crc32c [] first rest good =
    let none_valid : [] ≡ first ∷ rest = ap (λ (p : List ValidSegment × List Warning). p.0) good in
    absurd cc
some_files crc32c (e ∷ es) first rest good = ne→==-false _ 0 (λ z. absurd (omega (arith, z)))

length-of_scan : (ws : List RecoveryWarning) → length (of_scan ws) ≡ length ws
length-of_scan [] = refl
length-of_scan (w ∷ ws) = ap suc (length-of_scan ws)

length-last_hash_of :
    (crc32c : Bytes → ℕ) (keyed_hash : Bytes → Bytes → Bytes) (seg : Segment) (vs : List ReadView)
    (id : ℕ) (prev h : Bytes)
    → Consecutive crc32c keyed_hash seg id prev vs
    → length h ≡ 32
    → length (last_hash_of h vs) ≡ 32
length-last_hash_of crc32c keyed_hash seg [] id prev h c e = e
length-last_hash_of crc32c keyed_hash seg (v ∷ vs) id prev h (at, valid, chained, c) e =
    length-last_hash_of crc32c keyed_hash seg vs _ _ v.hash_n c valid.hash_in

module _ (crc32c : Bytes → ℕ) (keyed_hash : Bytes → Bytes → Bytes)
    (decrypt : Bytes → Bytes → Bytes → Option Bytes) (decode_all : Bytes → Option Bytes)
    (shard_bits segment_size : ℕ) (retention : RetentionPolicy) (encryption_key : Option KeyRing)
    (index_files : List (ℕ × Bytes)) (dir : Dir) where
  abbrev pub scanned_segment : ValidSegment → ValidSegment → Segment
  scanned_segment =
      segment_of crc32c keyed_hash decrypt decode_all shard_bits segment_size retention
        encryption_key index_files dir

  abbrev pub recovered_key : ValidSegment → Bytes
  recovered_key =
      chain_key_of crc32c keyed_hash decrypt decode_all shard_bits segment_size retention
        encryption_key index_files dir

  abbrev resumed : ValidSegment → List ValidSegment → Scan → RecoveryState
  resumed first rest t =
      recovered crc32c keyed_hash decrypt decode_all shard_bits segment_size retention
        encryption_key index_files dir first rest [] t

  -- What the scan has kept: a header and `body`, which has the records `vs`; it has cut `n` bytes off.
  pub record IsKept (last : ValidSegment) (header body : Bytes) (vs : List ReadView) (n : ℕ)
      (t : Scan) : Type 0 where
    pub kept : t.kept ≡ header ++ body
    pub valid : t.last_valid_offset ≡ 128 + length body
    pub count : t.count ≡ length vs
    pub sequence : t.last_sequence ≡ last_id ((last.header.base_sequence + 2 ^ 64 - 1) % 2 ^ 64) vs
    pub hash : t.last_hash ≡ last_hash_of zero_hash vs
    pub warned : length t.warnings ≡ (if ltb 0 n then 1 else 0)

  -- The log goes on in the last segment, behind its records, and the other files are as they were.
  pub record IsResumed (last : ValidSegment) (header body : Bytes) (vs : List ReadView) (n : ℕ)
      (st : RecoveryState) : Type 0 where
    pub manager : IsManager st.segment_manager
    pub active : st.segment_manager.active_id ≡ last.segment_id
    pub holds : content_of last.segment_id st.segment_manager.dir ≡ header ++ body
    pub others : (j : ℕ) → j ≢ last.segment_id → file_of j st.segment_manager.dir ≡ file_of j dir
    pub offset : st.active_offset ≡ 128 + length body
    pub count : st.recovered_count ≡ length vs
    pub sequence : st.last_sequence ≡ last_id ((last.header.base_sequence + 2 ^ 64 - 1) % 2 ^ 64) vs
    pub hash : st.last_hash ≡ last_hash_of zero_hash vs
    pub warned : length st.warnings ≡ (if ltb 0 n then 1 else 0)

  length-warnings :
      (first : ValidSegment) (rest : List ValidSegment) (t : Scan)
      → length (resumed first rest t).warnings ≡ length t.warnings
  length-warnings first rest t = if_nothing (hash_enabled first.header) ∙ length-of_scan t.warnings
    where
      if_nothing :
          (enabled : Bool)
          → length (
              of_scan t.warnings
              ++ (if enabled then check_continuity zero_hash (first ∷ rest) else []))
            ≡ length (of_scan t.warnings)
      if_nothing true =
          rw (check_continuity-none (first ∷ rest))
            (ap (λ (u : List Warning). length u) (append-nil (of_scan t.warnings)))
      if_nothing false = ap (λ (u : List Warning). length u) (append-nil (of_scan t.warnings))

  -- Recovery once the scan has kept the records of the last segment.
  pub recover_dir-kept-IsResumed :
      (first : ValidSegment) (rest : List ValidSegment) (header body : Bytes) (vs : List ReadView)
      (n id : ℕ) (t : Scan)
      → Distinct dir
      → valid_segments crc32c dir (sort_ids (list_segment_files dir)) ≡ (first ∷ rest, [])
      → ((j : ℕ) → j < (last_segment first rest).segment_id → at_risk j dir ≡ false)
      → length header ≡ segment_header_size
      → Consecutive crc32c keyed_hash
          (scanned_segment first (last_segment first rest))
          id
          (last_segment first rest).header.prev_last_hash
          vs
      → 0 < segment_size
      → length (mask_chain_key keyed_hash (recovered_key first) encryption_key) ≡ 32
      → scan_of crc32c keyed_hash decrypt decode_all shard_bits segment_size retention
          encryption_key index_files dir first
          (last_segment first rest)
        ≡ some t
      → IsKept (last_segment first rest) header body vs n t
      → (st : RecoveryState) × (recover_dir crc32c keyed_hash decrypt decode_all shard_bits
            segment_size retention encryption_key index_files dir
          ≡ some (ok st))
        × IsResumed (last_segment first rest) header body vs n st
  unfolding recover_dir open_existing
  recover_dir-kept-IsResumed first rest header body vs n id t distinct good safe h chain some_size
        masked returned r =
      let last = last_segment first rest in
      let size : length t.kept ≡ t.last_valid_offset =
        ap (λ (b : Bytes). length b) r.kept ∙ omega (arith, length-append header body, r.valid) in
      (
        resumed first rest t,
        rw (some_files crc32c dir first rest good, good)
            (ap
              (recover_scanned crc32c keyed_hash decrypt decode_all shard_bits segment_size
                retention encryption_key index_files dir first rest [])
              returned),
        record {
          manager =
              open_existing-IsManager last.segment_id t dir index_files last.header segment_size _ _
                _ retention distinct (λ j. last_segment-ends crc32c dir first rest j distinct good)
                safe (omega (arith, r.valid)) size
                (ap (λ (b : Bytes). length b) r.hash
                  ∙ length-last_hash_of crc32c keyed_hash (scanned_segment first last) vs id _
                      zero_hash chain refl)
                masked some_size;
          active = refl;
          holds = content_of-after_scan last.segment_id t dir ∙ r.kept;
          others = file_of-after_scan last.segment_id t dir;
          offset = r.valid;
          count = r.count;
          sequence = r.sequence;
          hash = r.hash;
          warned = length-warnings first rest t ∙ r.warned;
        },
      )

  -- In a directory whose headers are all good, with segment files before the last one on stable storage, the last
  -- segment is neither compressed nor encrypted and holds a header, records with consecutive ids of its shard (and the
  -- hashes of its chain, where that is on), and the first `n` bytes of one more. The ids begin at the base in the
  -- segment's header, or there is more than one shard; with one shard this leaves out a segment that was prepared before
  -- the one below it was full. Recovery succeeds: the log goes on in
  -- that segment, with the whole records and nothing else in it, and every other file is as it was; it reports the
  -- number of those records, the id and the hash of the last one, and a warning exactly when bytes were cut off; and
  -- what holds of a segment manager between calls holds of the one that it opens. The segment size is not zero,
  -- the masked chain key has 32 bytes, checksums fit 32 bits, and no file stands twice in the directory.
  pub recover_dir-IsResumed :
      (first : ValidSegment) (rest : List ValidSegment) (header : Bytes) (vs : List ReadView)
      (torn : ReadView) (n id : ℕ)
      → ((bs : Bytes) → crc32c bs < 256 ^ 4)
      → Distinct dir
      → valid_segments crc32c dir (sort_ids (list_segment_files dir)) ≡ (first ∷ rest, [])
      → ((j : ℕ) → j < (last_segment first rest).segment_id → at_risk j dir ≡ false)
      → (is_compressed (last_segment first rest).header
          || is_encrypted (last_segment first rest).header)
        ≡ false
      → length header ≡ segment_header_size
      → content_of (last_segment first rest).segment_id dir
        ≡ header ++ (stored crc32c vs ++ take n (record_bytes crc32c torn.record_id torn))
      → Consecutive crc32c keyed_hash
          (scanned_segment first (last_segment first rest))
          id
          (last_segment first rest).header.prev_last_hash
          vs
      → (id ≡ (last_segment first rest).header.base_sequence) ⊎ (0 < shard_bits)
      → IsView torn.record_id torn
      → n < record_size (length torn.content)
      → 0 < segment_size
      → length (mask_chain_key keyed_hash (recovered_key first) encryption_key) ≡ 32
      → (st : RecoveryState) × (recover_dir crc32c keyed_hash decrypt decode_all shard_bits
            segment_size retention encryption_key index_files dir
          ≡ some (ok st))
        × IsResumed (last_segment first rest) header (stored crc32c vs) vs n st
  recover_dir-IsResumed first rest header vs torn n id small distinct good safe raw h whole chain
        place valid cut some_size masked =
      let (t, returned, r) =
        scan_raw-IsRecovered crc32c keyed_hash (scanned_segment first (last_segment first rest))
          header vs torn n id small h whole chain place valid cut in
      recover_dir-kept-IsResumed first rest header (stored crc32c vs) vs n id t distinct good safe h
        chain some_size masked (rw raw returned)
        (record {
          kept = r.kept;
          valid = r.valid;
          count = r.count;
          sequence = r.sequence;
          hash = r.hash;
          warned = r.warned;
        })
