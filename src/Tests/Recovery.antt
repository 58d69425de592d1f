-- ===== src/Tests/Recovery.antt =====
-- The scan (logdb/src/recovery.rs) of a segment file of two records and a part of a third, also in frames, and of
-- files that begin with a wrong record.
use lv_logdb.Prelude.{
  ◌+◌, Option, ◌≡◌, ◌≢◌, ◌++◌, [], ◌∷◌, Bytes, List, refl, true, some, take, replicate, length,
  length-append, ◌≤◌, ap, sym, ◌∙◌, from_le, from_le-to_le, arith,
}
use lv_logdb.Format.{ReadView}
use lv_logdb.Format.Record.{IsView, record_bytes}
use lv_logdb.Format.Record.RoundTrip.{length-record_bytes}
use lv_logdb.Pipeline.Sealer.{blake3_keyed_chain}
use lv_logdb.Recovery.Scan.{Segment, Scan, scan_raw}
use lv_logdb.Recovery.Scan.Total.{IsDone, scan_raw-IsDone}
use lv_logdb.Recovery.Scan.Complete.{stored}
use lv_logdb.Recovery.Scan.Break.{BeginsWith, scan_raw-hash_break}
use lv_logdb.Recovery.Frames.{scan_frames}
use lv_logdb.Recovery.Frames.Layout.{Frame, frame_bytes, frames, IsFrame}
use lv_logdb.Recovery.Frames.Break.{BeginsWrong, scan_frames-hash_break}
use lv_logdb.Recovery.Frames.Total.{IsClosed, scan_frames-IsClosed}
use lv_logdb.Tests.Data.{
  test_crc, test_crc-small, test_hash, test_key, sum_bytes, first_view, second_view,
  first_view-IsView, second_view-IsView,
}

abbrev header : Bytes
header = replicate 128 7

abbrev segment : Bytes → Bytes → Segment
segment file key = record {
  file = file;
  segment_id = 3;
  base_sequence = 40;
  prev_last_hash = replicate 32 0;
  hash_enabled = true;
  chain_key = key;
  shard_bits = 0;
}

abbrev pub views : List ReadView
views = first_view ∷ second_view ∷ []

abbrev crashed : Segment
crashed =
    segment (header ++ (stored test_crc views ++ take 10 (record_bytes test_crc 40 first_view)))
      test_key

header_le : (h rest : Bytes) → length h ≡ 128 → 128 ≤ length (h ++ rest)
header_le h rest e = omega (arith, length-append h rest)

scan_raw-IsDone_example :
    (t : Scan) × (scan_raw test_crc test_hash crashed ≡ some t) × IsDone crashed t
scan_raw-IsDone_example = scan_raw-IsDone test_crc test_hash crashed (header_le header _ refl)

-- A file that begins with the first record and is read with another key.
abbrev other_key : Segment
other_key = segment (header ++ (record_bytes test_crc 40 first_view ++ (1 ∷ []))) (replicate 32 6)

other_key-BeginsWith : BeginsWith test_crc test_hash other_key header first_view (1 ∷ [])
other_key-BeginsWith = record {
  small = test_crc-small;
  header_size = refl;
  layout = refl;
  valid = first_view-IsView;
}

wrong_hash :
    blake3_keyed_chain test_hash (replicate 32 6) (replicate 32 0) first_view.content
    ≢ first_view.hash_n
unfolding blake3_keyed_chain
wrong_hash e =
    let other = sum_bytes (replicate 32 0 ++ (first_view.content ++ replicate 32 6)) in
    let right = sum_bytes (replicate 32 0 ++ (first_view.content ++ test_key)) in
    let same : other ≡ right =
      sym (from_le-to_le 32 other (omega arith))
      ∙ ap from_le e
      ∙ from_le-to_le 32 right (omega arith) in
    omega arith

scan_raw-hash_break_example :
    (t : Scan) × (scan_raw test_crc test_hash other_key ≡ some t)
    × (t.kept ≡ header)
    × (t.last_sequence ≡ 40)
    × (t.count ≡ 1)
scan_raw-hash_break_example =
    scan_raw-hash_break test_crc test_hash other_key header first_view (1 ∷ []) other_key-BeginsWith
      refl refl wrong_hash

-- Frames whose payload is the records themselves.
plain : Bytes → Option Bytes
plain p = some p

abbrev pub frame : List ReadView → Frame
frame vs = record { views = vs; payload = stored test_crc vs }

stored-bounds :
    (v : ReadView) (vs : List ReadView)
    → IsView v.record_id v
    → length (stored test_crc (v ∷ vs)) ≡ 60 + length v.content + length (stored test_crc vs)
unfolding stored
stored-bounds v vs valid = omega (
  arith,
  length-append (record_bytes test_crc v.record_id v) (stored test_crc vs),
  length-record_bytes test_crc v.record_id v valid,
)

pub length-views : length (stored test_crc views) ≡ 123
unfolding stored
length-views = omega (
  arith,
  stored-bounds first_view (second_view ∷ []) first_view-IsView,
  stored-bounds second_view [] second_view-IsView,
)

views-IsFrame : IsFrame test_crc plain (frame views)
unfolding plain
views-IsFrame = record {
  decoded = refl;
  some_payload = omega (arith, length-views);
  payload_in = omega (arith, length-views);
  some_records = omega (arith, length-views);
  records_in = omega (arith, length-views);
}

-- One frame and a part of another.
abbrev framed : Segment
framed =
    segment
      (header
        ++ (frames test_crc (frame views ∷ []) ++ take 10 (frame_bytes test_crc (frame views))))
      test_key

scan_frames-IsClosed_example :
    (t : Scan) × (scan_frames test_crc test_hash framed plain ≡ some t) × IsClosed framed t
scan_frames-IsClosed_example =
    scan_frames-IsClosed test_crc test_hash framed plain (header_le header _ refl)

-- A frame that is read with another key, and a byte behind it.
abbrev framed_other : Segment
framed_other = segment (header ++ (frame_bytes test_crc (frame views) ++ (1 ∷ []))) (replicate 32 6)

framed_other-BeginsWrong :
    BeginsWrong test_crc test_hash framed_other plain header first_view
      (second_view ∷ [])
      (stored test_crc views)
      (1 ∷ [])
framed_other-BeginsWrong = record {
  small = test_crc-small;
  header_size = refl;
  layout = refl;
  whole = views-IsFrame;
  valid = first_view-IsView;
  hashed = refl;
  place = refl;
  wrong = wrong_hash;
}

scan_frames-hash_break_example :
    (t : Scan) × (scan_frames test_crc test_hash framed_other plain ≡ some t)
    × (t.kept ≡ header ++ replicate (8 + length (stored test_crc views)) 0)
    × (t.last_valid_offset ≡ 136 + length (stored test_crc views))
    × (t.last_sequence ≡ 40)
    × (t.count ≡ 1)
scan_frames-hash_break_example =
    scan_frames-hash_break test_crc test_hash framed_other plain header first_view
      (second_view ∷ []) (stored test_crc views) (1 ∷ []) framed_other-BeginsWrong
