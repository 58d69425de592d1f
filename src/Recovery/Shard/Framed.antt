-- ===== src/Recovery/Shard/Framed.antt =====
-- What `recover_shard` (logdb/src/recovery.rs) makes of a compressed or encrypted last segment that a crash left behind.
use lv_logdb.Prelude.{
  ℕ, ◌+◌, ◌^◌, ◌<◌, ◌≡◌, ◌⊎◌, true, false, ◌||◌, Option, some, List, [], ◌∷◌, ◌++◌, Bytes, take,
  length, All, ok,
}
use lv_logdb.Format.{segment_header_size}
use lv_logdb.Recovery.Decode.{decode_frame_payload}
use lv_logdb.Recovery.Frames.Layout.{Frame, views_of, frame_bytes, frames, IsFrame}
use lv_logdb.Recovery.Frames.Recovered.{scan_last_segment-IsRecovered}
use lv_logdb.Recovery.Keys.{KeyRing, is_compressed, is_encrypted, mask_chain_key}
use lv_logdb.Recovery.Scan.Complete.{Consecutive}
use lv_logdb.Recovery.Shard.{
  RecoveryState, ValidSegment, valid_segments, last_segment, decrypt_keys_of, recover_dir,
}
use lv_logdb.Recovery.Shard.Resumed.{
  scanned_segment, recovered_key, IsResumed, recover_dir-kept-IsResumed,
}
use lv_logdb.Storage.Disk.{Dir, content_of, at_risk}
use lv_logdb.Storage.Disk.Distinct.{Distinct}
use lv_logdb.Storage.Segments.{RetentionPolicy}
use lv_logdb.Storage.Segments.Roll.{list_segment_files, sort_ids}

module _ (crc32c : Bytes → ℕ) (keyed_hash : Bytes → Bytes → Bytes)
    (decrypt : Bytes → Bytes → Bytes → Option Bytes) (decode_all : Bytes → Option Bytes)
    (shard_bits segment_size : ℕ) (retention : RetentionPolicy) (encryption_key : Option KeyRing)
    (index_files : List (ℕ × Bytes)) (dir : Dir) where
  -- How the frames of a segment are decoded.
  abbrev pub decode_of : ValidSegment → Bytes → Option Bytes
  decode_of last =
      decode_frame_payload decrypt decode_all (is_compressed last.header) (is_encrypted last.header)
        (decrypt_keys_of encryption_key)

  -- In a directory whose headers are all good, with segment files before the last one on stable storage, the last
  -- segment is compressed or encrypted and holds a header, whole frames, which the keys that are there decode, with
  -- records of consecutive ids of its shard (and the hashes of its chain, where that is on), and the first `n` bytes of
  -- one more frame. The ids begin at the base in the segment's header, or there is more than one shard; with one shard
  -- this leaves out a segment that was prepared before the one below it was full. Recovery succeeds: the log goes on in
  -- that segment, with the whole frames and nothing else in it,
  -- and every other file is as it was; it reports the number of the records, the id and the hash of the last one, and
  -- a warning exactly when bytes were cut off; and what holds of a segment manager between calls holds of the one that
  -- it opens. The segment size is not zero, the masked chain key has 32 bytes, checksums fit 32 bits, and no file stands
  -- twice in the directory.
  pub recover_dir-framed-IsResumed :
      (first : ValidSegment) (rest : List ValidSegment) (header : Bytes) (fs : List Frame)
      (torn : Frame) (n id : ℕ)
      → ((bs : Bytes) → crc32c bs < 256 ^ 4)
      → Distinct dir
      → valid_segments crc32c dir (sort_ids (list_segment_files dir)) ≡ (first ∷ rest, [])
      → ((j : ℕ) → j < (last_segment first rest).segment_id → at_risk j dir ≡ false)
      → (is_compressed (last_segment first rest).header
          || is_encrypted (last_segment first rest).header)
        ≡ true
      → length header ≡ segment_header_size
      → content_of (last_segment first rest).segment_id dir
        ≡ header ++ (frames crc32c fs ++ take n (frame_bytes crc32c torn))
      → All (IsFrame crc32c (decode_of (last_segment first rest))) fs
      → Consecutive crc32c keyed_hash
          (scanned_segment crc32c keyed_hash decrypt decode_all shard_bits segment_size retention
            encryption_key index_files dir first
            (last_segment first rest))
          id
          (last_segment first rest).header.prev_last_hash
          (views_of fs)
      → (id ≡ (last_segment first rest).header.base_sequence) ⊎ (0 < shard_bits)
      → IsFrame crc32c (decode_of (last_segment first rest)) torn
      → n < 8 + length torn.payload
      → 0 < segment_size
      → length (
          mask_chain_key keyed_hash
            (recovered_key crc32c keyed_hash decrypt decode_all shard_bits segment_size retention
              encryption_key index_files dir first)
            encryption_key)
        ≡ 32
      → (st : RecoveryState) × (recover_dir crc32c keyed_hash decrypt decode_all shard_bits
            segment_size retention encryption_key index_files dir
          ≡ some (ok st))
        × IsResumed crc32c keyed_hash decrypt decode_all shard_bits segment_size retention
            encryption_key index_files dir
            (last_segment first rest)
            header
            (frames crc32c fs)
            (views_of fs)
            n
            st
  recover_dir-framed-IsResumed first rest header fs torn n id small distinct good safe framed h
        whole frames_good chain place valid cut some_size masked =
      let last = last_segment first rest in
      let (t, returned, r) =
        scan_last_segment-IsRecovered crc32c keyed_hash
          (scanned_segment crc32c keyed_hash decrypt decode_all shard_bits segment_size retention
            encryption_key index_files dir first last)
          (decode_of last) (is_compressed last.header) (is_encrypted last.header) header fs torn n
          id small framed h whole frames_good chain place valid cut in
      recover_dir-kept-IsResumed crc32c keyed_hash decrypt decode_all shard_bits segment_size
        retention encryption_key index_files dir first rest header (frames crc32c fs) (views_of fs)
        n id t distinct good safe h chain some_size masked returned
        (record {
          kept = r.kept;
          valid = r.valid;
          count = r.count;
          sequence = r.sequence;
          hash = r.hash;
          warned = r.warned;
        })
