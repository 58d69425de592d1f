-- ===== src/Recovery/Shard.antt =====
-- `recover_shard` of logdb/src/recovery.rs: the headers of the segment files are read, the last segment is scanned, and
-- the log goes on in it. The files are those of a directory (Storage.Disk), each of which can be opened.
pub mod Listed
pub mod Opened
pub mod Resumed
pub mod Framed
pub mod Total
use lv_logdb.Prelude.{
  ℕ, Bool, not, ◌&&◌, ◌||◌, Option, none, some, List, [], ◌∷◌, ◌++◌, Bytes, take, length, ltb, ◌==◌,
  ◌!=◌, if◌then◌else◌, Result, ok, err, bytes_eq, ℕ_discrete, put,
}
use lv_logdb.Format.{segment_header_size}
use lv_logdb.Format.Header.{SegmentHeader, HeaderError, deserialize, hash_enabled}
use lv_logdb.Recovery.Scan.{Segment, Scan, RecoveryWarning, hash_chain_break, zero_hash}
use lv_logdb.Recovery.Frames.{scan_last_segment}
use lv_logdb.Recovery.Decode.{decode_frame_payload}
use lv_logdb.Recovery.Keys.{KeyRing, is_compressed, is_encrypted, mask_chain_key, resolve_chain_key}
use lv_logdb.Storage.Disk.{Dir, content_of, at_risk}
use lv_logdb.Storage.Segments.{SegmentManager, RetentionPolicy}
use lv_logdb.Storage.Segments.Open.{open_existing}
use lv_logdb.Storage.Segments.Roll.{list_segment_files, sort_ids}

pub data RecoveryError : Type 0 where
  missing_directory : RecoveryError
  no_segment_files : RecoveryError
  no_valid_segments : RecoveryError

-- The reasons of a `CorruptedHeader` for a segment.
pub data HeaderReason : Type 0 where
  too_small : ℕ → HeaderReason
  id_mismatch : ℕ → ℕ → HeaderReason
  bad_header : HeaderError → HeaderReason

-- A `RecoveryWarning`, of a header or of the records.
pub data Warning : Type 0 where
  corrupted_header : ℕ → HeaderReason → Warning
  of_records : RecoveryWarning → Warning

pub record ValidSegment : Type 0 where
  pub segment_id : ℕ
  pub header : SegmentHeader

pub record RecoveryState : Type 0 where
  pub segment_manager : SegmentManager
  pub last_sequence : ℕ
  pub last_hash : Bytes
  pub active_segment_id : ℕ
  pub active_offset : ℕ
  pub hash_enabled : Bool
  pub hash_init : Bytes
  pub warnings : List Warning
  pub recovered_count : ℕ

abbrev pub of_scan : List RecoveryWarning → List Warning
of_scan [] = []
of_scan (w ∷ ws) = of_records w ∷ of_scan ws

-- Step 5, the loop over the valid segments.
unfoldable pub check_continuity : Bytes → List ValidSegment → List Warning
check_continuity expected_prev_hash [] = []
check_continuity expected_prev_hash (v ∷ vs) =
    let rest = check_continuity zero_hash vs in
    let found = v.header.prev_last_hash in
    if not (bytes_eq found expected_prev_hash) && not (bytes_eq expected_prev_hash zero_hash)
    then of_records (hash_chain_break v.segment_id expected_prev_hash found) ∷ rest
    else rest

abbrev pub last_segment : ValidSegment → List ValidSegment → ValidSegment
last_segment v [] = v
last_segment v (w ∷ ws) = last_segment w ws

-- The file of the last segment, which the scan may have cut.
abbrev pub after_scan : ℕ → Scan → Dir → Dir
after_scan id t dir =
    put ℕ_discrete id
      (record {
        content = t.kept;
        dirty = at_risk id dir || not (bytes_eq t.kept (content_of id dir));
      })
      dir

abbrev pub active_key_id : Option KeyRing → Option ℕ
active_key_id none = none
active_key_id (some ring) = some ring.active_id

abbrev pub decrypt_keys_of : Option KeyRing → Option (List (ℕ × Bytes))
decrypt_keys_of none = none
decrypt_keys_of (some ring) = some ring.decrypt_keys

-- What a header of step 2 adds in front of those that follow.
abbrev pub add_valid :
    ℕ
    → Result HeaderReason SegmentHeader
    → List ValidSegment × List Warning
    → List ValidSegment × List Warning
add_valid id (err reason) later = ([], corrupted_header id reason ∷ [])
add_valid id (ok h) later = (record { segment_id = id; header = h } ∷ later.0, later.1)

module _ (crc32c : Bytes → ℕ) where
  -- One header of step 2.
  unfoldable pub check_header : ℕ → Bytes → Result HeaderReason SegmentHeader
  check_header id file =
      if ltb (length file) segment_header_size
      then err (too_small (length file))
      else elim (deserialize crc32c (take segment_header_size file)) [
        | err e ↦ err (bad_header e)
        | ok h ↦ if h.segment_id != id then err (id_mismatch h.segment_id id) else ok h
      ]

  -- Step 2: the segments up to the first bad header, and the warning.
  unfoldable pub valid_segments : Dir → List ℕ → List ValidSegment × List Warning
  valid_segments dir [] = ([], [])
  valid_segments dir (id ∷ ids) =
      add_valid id (check_header id (content_of id dir)) (valid_segments dir ids)

  module _ (keyed_hash : Bytes → Bytes → Bytes) (decrypt : Bytes → Bytes → Bytes → Option Bytes)
      (decode_all : Bytes → Option Bytes) (shard_bits segment_size : ℕ)
      (retention : RetentionPolicy) (encryption_key : Option KeyRing)
      (index_files : List (ℕ × Bytes)) (dir : Dir) where
    -- Step 3.
    abbrev pub chain_key_of : ValidSegment → Bytes
    chain_key_of first =
        resolve_chain_key keyed_hash crc32c decrypt decode_all (content_of first.segment_id dir)
          first.header encryption_key

    -- The arguments of the scan of step 4.
    abbrev pub segment_of : ValidSegment → ValidSegment → Segment
    segment_of first last = record {
      file = content_of last.segment_id dir;
      segment_id = last.segment_id;
      base_sequence = last.header.base_sequence;
      prev_last_hash = last.header.prev_last_hash;
      hash_enabled = hash_enabled first.header;
      chain_key = chain_key_of first;
      shard_bits = shard_bits;
    }

    abbrev pub scan_of : ValidSegment → ValidSegment → Option Scan
    scan_of first last =
        let compressed = is_compressed last.header in
        let encrypted = is_encrypted last.header in
        scan_last_segment crc32c keyed_hash (segment_of first last)
          (decode_frame_payload decrypt decode_all compressed encrypted
            (decrypt_keys_of encryption_key))
          compressed encrypted

    -- Steps 5 and 6.
    abbrev pub recovered : ValidSegment → List ValidSegment → List Warning → Scan → RecoveryState
    recovered first rest warnings t =
        let last = last_segment first rest in
        let enabled = hash_enabled first.header in
        record {
          segment_manager =
              open_existing (after_scan last.segment_id t dir) index_files last.segment_id
                t.last_valid_offset last.header segment_size t.last_hash
                (mask_chain_key keyed_hash (chain_key_of first) encryption_key) enabled
                (active_key_id encryption_key) retention;
          last_sequence = t.last_sequence;
          last_hash = t.last_hash;
          active_segment_id = last.segment_id;
          active_offset = t.last_valid_offset;
          hash_enabled = enabled;
          hash_init = chain_key_of first;
          warnings =
              warnings
              ++ of_scan t.warnings
              ++ (if enabled then check_continuity zero_hash (first ∷ rest) else []);
          recovered_count = t.count;
        }

    abbrev pub recover_scanned :
        ValidSegment
        → List ValidSegment
        → List Warning
        → Option Scan
        → Option (Result RecoveryError RecoveryState)
    recover_scanned first rest warnings none = none
    recover_scanned first rest warnings (some t) = some (ok (recovered first rest warnings t))

    -- Steps 3 to 6.
    abbrev pub recover_from :
        List ValidSegment × List Warning → Option (Result RecoveryError RecoveryState)
    recover_from ([], warnings) = some (err no_valid_segments)
    recover_from (first ∷ rest, warnings) =
        recover_scanned first rest warnings (scan_of first (last_segment first rest))

    -- The directory is there; `none` if the scan ran out of fuel.
    unfoldable pub recover_dir : Option (Result RecoveryError RecoveryState)
    recover_dir =
        let ids = list_segment_files dir in
        if length ids == 0
        then some (err no_segment_files)
        else recover_from (valid_segments dir (sort_ids ids))

  abbrev pub recover_shard :
      (Bytes → Bytes → Bytes)
      → (Bytes → Bytes → Bytes → Option Bytes)
      → (Bytes → Option Bytes)
      → ℕ
      → ℕ
      → RetentionPolicy
      → Option KeyRing
      → List (ℕ × Bytes)
      → Option Dir
      → Option (Result RecoveryError RecoveryState)
  recover_shard keyed_hash decrypt decode_all shard_bits segment_size retention encryption_key
        index_files none =
      some (err missing_directory)
  recover_shard keyed_hash decrypt decode_all shard_bits segment_size retention encryption_key
        index_files (some dir) =
      recover_dir keyed_hash decrypt decode_all shard_bits segment_size retention encryption_key
        index_files dir
