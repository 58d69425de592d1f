-- ===== src/Tests/Recover.antt =====
-- Recovery of a shard (logdb/src/recovery.rs) from a directory of two segment files.
use lv_logdb.Prelude.{
  ℕ, ◌<◌, ◌≡◌, refl, inl, true, false, Option, none, some, [], ◌∷◌, ◌++◌, Bytes, Result, ok, take,
  length, length-append, replicate, arith, le→ltb-false, take-append, !=-refl, find, ℕ_discrete,
}
use lv_logdb.Format.Header.{SegmentHeader, IsHeader, serialize, zero_hash, hash_enabled}
use lv_logdb.Format.Header.RoundTrip.{deserialize-serialize, length-serialize}
use lv_logdb.Format.Record.{record_bytes}
use lv_logdb.Pipeline.Sealer.{blake3_keyed_chain}
use lv_logdb.Recovery.Scan.Complete.{stored, Consecutive}
use lv_logdb.Recovery.Shard.{
  RecoveryError, RecoveryState, ValidSegment, check_header, valid_segments, recover_dir, segment_of,
}
use lv_logdb.Recovery.Shard.Resumed.{IsResumed, recover_dir-IsResumed}
use lv_logdb.Recovery.Shard.Total.{Outcome, recover_dir-Outcome}
use lv_logdb.Recovery.Decode.{decode_frame_payload}
use lv_logdb.Recovery.Frames.Layout.{frame_bytes, frames, views_of, IsFrame}
use lv_logdb.Recovery.Shard.Framed.{recover_dir-framed-IsResumed}
use lv_logdb.Tests.Recovery.{views, frame, length-views}
use lv_logdb.Recovery.Keys.{resolve_chain_key, mask_chain_key}
use lv_logdb.Storage.Disk.{Dir, at_risk}
use lv_logdb.Storage.Disk.Distinct.{Distinct}
use lv_logdb.Storage.Segments.{keep_all}
use lv_logdb.Storage.Segments.Roll.{list_segment_files, sort_ids, insert_id}
use lv_logdb.Tests.Data.{
  test_crc, test_crc-small, test_hash, test_header, test_header-IsHeader, first_view,
  first_view-IsView, second_view-IsView,
}

abbrev older_header : SegmentHeader
older_header = record test_header { segment_id = 2; base_sequence = 10 }

older_header-IsHeader : IsHeader older_header
older_header-IsHeader = record {
  version_in = omega arith;
  flags_in = omega arith;
  hash_algo_in = omega arith;
  hash_init_in = refl;
  base_sequence_in = omega arith;
  partition_id_in = omega arith;
  segment_id_in = omega arith;
  min_timestamp_in = omega arith;
  max_timestamp_in = omega arith;
  prev_last_hash_in = refl;
  record_format_in = omega arith;
  encryption_key_id_in = omega arith;
}

abbrev pub header_bytes : SegmentHeader → Bytes
header_bytes h = serialize test_crc h zero_hash

abbrev tail : Bytes
tail = stored test_crc views ++ take 10 (record_bytes test_crc 40 first_view)

abbrev crashed : Dir
crashed =
    (3, record { content = header_bytes test_header ++ tail; dirty = true })
    ∷ (2, record { content = header_bytes older_header ++ []; dirty = false })
    ∷ []

check_header-good :
    (h : SegmentHeader) (rest : Bytes)
    → IsHeader h
    → check_header test_crc h.segment_id (header_bytes h ++ rest)
      ≡ ok (record h { prev_last_hash = zero_hash })
unfolding check_header
check_header-good h rest good =
    let size = length-serialize test_crc h zero_hash good.hash_init_in refl in
    rw
      (
        le→ltb-false (length (header_bytes h ++ rest)) 128
            (omega (arith, length-append (header_bytes h) rest)),
        take-append 128 (header_bytes h) rest size,
        deserialize-serialize test_crc h zero_hash test_crc-small good refl,
        !=-refl,
      )
      refl

abbrev valid_segment : SegmentHeader → ValidSegment
valid_segment h = record { segment_id = h.segment_id; header = h }

crashed-valid :
    valid_segments test_crc crashed (sort_ids (list_segment_files crashed))
    ≡ (valid_segment older_header ∷ valid_segment test_header ∷ [], [])
unfolding valid_segments sort_ids insert_id find ℕ_discrete
crashed-valid =
    rw
      (
        check_header-good older_header [] older_header-IsHeader,
        check_header-good test_header tail test_header-IsHeader,
      )
      refl

crashed-Distinct : Distinct crashed
unfolding find ℕ_discrete
crashed-Distinct = (refl, (refl, tt))

-- No key opens a frame, and nothing is decompressed.
no_plain : Bytes → Bytes → Bytes → Option Bytes
no_plain key nonce ct = none

pub not_decoded : Bytes → Option Bytes
not_decoded bs = none

crashed-Consecutive :
    Consecutive test_crc test_hash
      (segment_of test_crc test_hash no_plain not_decoded 0 1000000 keep_all none [] crashed
        (valid_segment older_header)
        (valid_segment test_header))
      40
      (replicate 32 0)
      views
unfolding blake3_keyed_chain resolve_chain_key hash_enabled
crashed-Consecutive =
    (refl, first_view-IsView, λ _. refl, (refl, second_view-IsView, λ _. refl, tt))

below_three : (j : ℕ) → j < 3 → at_risk j crashed ≡ false
unfolding find ℕ_discrete
below_three j h = elim (ℕ_discrete j 2) [ yes two ↦ ground arith | no n ↦ ground arith ]

recover_dir-IsResumed_example :
    (st : RecoveryState) × (recover_dir test_crc test_hash no_plain not_decoded 0 1000000 keep_all
        none [] crashed
      ≡ some (ok st))
    × IsResumed test_crc test_hash no_plain not_decoded 0 1000000 keep_all none [] crashed
        (valid_segment test_header)
        (header_bytes test_header)
        (stored test_crc views)
        views
        10
        st
unfolding mask_chain_key resolve_chain_key
recover_dir-IsResumed_example =
    recover_dir-IsResumed test_crc test_hash no_plain not_decoded 0 1000000 keep_all none [] crashed
      (valid_segment older_header) (valid_segment test_header ∷ []) (header_bytes test_header) views
      first_view 10 40 test_crc-small crashed-Distinct crashed-valid below_three refl
      (length-serialize test_crc test_header zero_hash refl refl) (unfold find ℕ_discrete in refl)
      crashed-Consecutive (inl refl) first_view-IsView (omega arith) (omega arith) refl

-- The last segment is compressed, by nothing.
abbrev framed_header : SegmentHeader
framed_header = record test_header { flags = 6 }

framed_header-IsHeader : IsHeader framed_header
framed_header-IsHeader = record {
  version_in = omega arith;
  flags_in = omega arith;
  hash_algo_in = omega arith;
  hash_init_in = refl;
  base_sequence_in = omega arith;
  partition_id_in = omega arith;
  segment_id_in = omega arith;
  min_timestamp_in = omega arith;
  max_timestamp_in = omega arith;
  prev_last_hash_in = refl;
  record_format_in = omega arith;
  encryption_key_id_in = omega arith;
}

as_it_is : Bytes → Option Bytes
as_it_is bs = some bs

abbrev framed_tail : Bytes
framed_tail = frames test_crc (frame views ∷ []) ++ take 10 (frame_bytes test_crc (frame views))

abbrev crashed_framed : Dir
crashed_framed =
    (3, record { content = header_bytes framed_header ++ framed_tail; dirty = true })
    ∷ (2, record { content = header_bytes older_header ++ []; dirty = false })
    ∷ []

crashed_framed-valid :
    valid_segments test_crc crashed_framed (sort_ids (list_segment_files crashed_framed))
    ≡ (valid_segment older_header ∷ valid_segment framed_header ∷ [], [])
unfolding valid_segments sort_ids insert_id find ℕ_discrete
crashed_framed-valid =
    rw
      (
        check_header-good older_header [] older_header-IsHeader,
        check_header-good framed_header framed_tail framed_header-IsHeader,
      )
      refl

crashed_framed-Distinct : Distinct crashed_framed
unfolding find ℕ_discrete
crashed_framed-Distinct = (refl, (refl, tt))

framed-IsFrame :
    IsFrame test_crc (decode_frame_payload no_plain as_it_is true false none) (frame views)
unfolding decode_frame_payload as_it_is
framed-IsFrame = record {
  decoded = refl;
  some_payload = omega (arith, length-views);
  payload_in = omega (arith, length-views);
  some_records = omega (arith, length-views);
  records_in = omega (arith, length-views);
}

crashed_framed-Consecutive :
    Consecutive test_crc test_hash
      (segment_of test_crc test_hash no_plain as_it_is 0 1000000 keep_all none [] crashed_framed
        (valid_segment older_header)
        (valid_segment framed_header))
      40
      (replicate 32 0)
      (views_of (frame views ∷ []))
unfolding blake3_keyed_chain resolve_chain_key hash_enabled
crashed_framed-Consecutive =
    (refl, first_view-IsView, λ _. refl, (refl, second_view-IsView, λ _. refl, tt))

below_three-framed : (j : ℕ) → j < 3 → at_risk j crashed_framed ≡ false
unfolding find ℕ_discrete
below_three-framed j h = elim (ℕ_discrete j 2) [ yes two ↦ ground arith | no n ↦ ground arith ]

recover_dir-framed-IsResumed_example :
    (st : RecoveryState) × (recover_dir test_crc test_hash no_plain as_it_is 0 1000000 keep_all none
        [] crashed_framed
      ≡ some (ok st))
    × IsResumed test_crc test_hash no_plain as_it_is 0 1000000 keep_all none [] crashed_framed
        (valid_segment framed_header)
        (header_bytes framed_header)
        (frames test_crc (frame views ∷ []))
        views
        10
        st
unfolding mask_chain_key resolve_chain_key
recover_dir-framed-IsResumed_example =
    recover_dir-framed-IsResumed test_crc test_hash no_plain as_it_is 0 1000000 keep_all none []
      crashed_framed (valid_segment older_header) (valid_segment framed_header ∷ [])
      (header_bytes framed_header) (frame views ∷ []) (frame views) 10 40 test_crc-small
      crashed_framed-Distinct crashed_framed-valid below_three-framed refl
      (length-serialize test_crc framed_header zero_hash refl refl) (unfold find ℕ_discrete in refl)
      (framed-IsFrame, tt) crashed_framed-Consecutive (inl refl) framed-IsFrame
      (omega (arith, length-views)) (omega arith) refl

recover_dir-Outcome_example :
    (r : Result RecoveryError RecoveryState) × (recover_dir test_crc test_hash no_plain not_decoded
        0 1000000 keep_all none [] crashed
      ≡ some r)
    × Outcome test_crc test_hash no_plain not_decoded 0 1000000 keep_all none [] crashed r
recover_dir-Outcome_example =
    recover_dir-Outcome test_crc test_hash no_plain not_decoded 0 1000000 keep_all none [] crashed
