-- ===== src/Tests/Server.antt =====
-- The server's records and trackers (logdbd/src/record.rs, logdbd/src/service.rs) at concrete inputs: a record with
-- two entries of metadata, and a stream that is appended to, deleted, and appended to again.
use lv_logdb.Prelude.{
  ℕ, ◌≡◌, ◌<◌, ◌++◌, refl, ap, Bool, true, false, some, List, [], ◌∷◌, Bytes, bytes_eq, take,
  length, replicate, arith, map, min, ok, err, find, put, ℕ_discrete, Option, IsErr, to_le, from_le,
}
use lv_logdb.Server.Record.{
  DecodedRecord, encode_record, decode_record, read_record, read_metadata, read_str, read_bytes,
  read_int, insert, truncated, bytes_compare, metadata_bytes,
}
use lv_logdb.Server.Record.RoundTrip.{IsRecord, decode_record-encode_record}
use lv_logdb.Server.Record.Torn.{decode_record-take-IsErr}
use lv_logdb.Server.Streams.{
  Streams, AppendRequest, restarted_tombstones, restarted_quota, append, numbered, deletion,
  delete_stream, scan_records, Call, append_call, batch_call, delete_call, batch_append,
  append_each, storage_append, use_number, same_target, next_seq, answer_all, new_streams,
}
use lv_logdb.Server.Quota.{
  StreamQuota, no_usage, usage, add, reset, check_quota, key_discrete, seed_loop, seed_one,
}
use lv_logdb.Server.Tombstone.{
  stream_deleted_event, record_tombstone, is_live, cutoff, rebuild_loop, rebuild_one,
}
use lv_logdb.Server.Streams.Within.{usage_of}
use lv_logdb.Server.Streams.Amid.{amid, step-usage_of, Answers, batching-Answers}
use lv_logdb.Server.Streams.Tracked.{Agrees, quota_of}
use lv_logdb.Server.Streams.Handlers.{
  Handler, batching, deleting, appending, counting, replied, step, overlapped,
}
use lv_logdb.Shard.{encode_record_id}
use lv_logdb.Server.Streams.Restart.{answer_all-Agrees}

abbrev valid : Bytes → Bool
valid s = true

abbrev two_entries : DecodedRecord
two_entries = record {
  namespace_id = 1;
  stream_id = 7;
  seq = 3;
  event_type = 101 ∷ 118 ∷ [];
  content_type = 116 ∷ [];
  metadata = (97 ∷ [], 49 ∷ 50 ∷ []) ∷ (98 ∷ [], []) ∷ [];
  timestamp_ns = 1000;
  user_content = 5 ∷ 6 ∷ [];
  shard_id = 0;
}

two_entries-IsRecord : IsRecord valid two_entries
unfolding bytes_compare metadata_bytes
two_entries-IsRecord = record {
  namespace_in = omega arith;
  stream_in = omega arith;
  seq_in = omega arith;
  timestamp_in = omega arith;
  event_text = refl;
  event_in = omega arith;
  content_text = refl;
  content_in = omega arith;
  entries_in =
      ((refl, refl, omega arith, omega arith), ((refl, refl, omega arith, omega arith), tt));
  ascending = ((refl, tt), (tt, tt));
  count_in = omega arith;
  size_in = omega arith;
  user_in = omega arith;
  no_shard = refl;
}

decode_record-encode_record_example :
    (raw : Bytes) × (encode_record 1 7 3
        (101 ∷ 118 ∷ [])
        (116 ∷ [])
        two_entries.metadata
        1000
        (5 ∷ 6 ∷ [])
      ≡ ok raw)
    × (decode_record valid (raw ++ (9 ∷ [])) ≡ ok two_entries)
decode_record-encode_record_example =
    decode_record-encode_record valid two_entries (9 ∷ []) two_entries-IsRecord

decode_record-take-IsErr_example :
    (raw : Bytes) × (encode_record 1 7 3
        (101 ∷ 118 ∷ [])
        (116 ∷ [])
        two_entries.metadata
        1000
        (5 ∷ 6 ∷ [])
      ≡ ok raw)
    × (30 < length raw → IsErr (decode_record valid (take 30 raw)))
decode_record-take-IsErr_example =
    decode_record-take-IsErr valid two_entries 30 two_entries-IsRecord

abbrev request : Bytes → AppendRequest
request content = record {
  namespace = 110 ∷ [];
  stream = 115 ∷ [];
  namespace_id = 1;
  stream_id = 7;
  event_type = 101 ∷ [];
  content_type = 116 ∷ [];
  metadata = [];
  timestamp_ns = 0;
  content = content;
  taken = true;
}

abbrev calls : List Call
calls =
    append_call [] (request (5 ∷ 6 ∷ []))
    ∷ delete_call 1 7 true
    ∷ batch_call [] 1 7 (request (8 ∷ []) ∷ request [] ∷ [])
    ∷ []

-- The log of these calls with one shard, from gid 0 on.
abbrev calls_log : List (ℕ × Option DecodedRecord)
calls_log =
    (0, some (numbered 1 (request (5 ∷ 6 ∷ []))))
    ∷ (1, some (numbered 2 (deletion 1 7 true)))
    ∷ (2, some (numbered 3 (request (8 ∷ []))))
    ∷ (3, some (numbered 4 (request [])))
    ∷ []

answer_all-Agrees_example :
    Agrees
      (λ st. 1)
      (restarted_tombstones 4 calls_log)
      (restarted_quota 4 calls_log)
      (answer_all calls new_streams)
unfolding answer_all append delete_stream batch_append append_each storage_append use_number
    same_target next_seq usage add reset record_tombstone check_quota bytes_eq find put key_discrete
    encode_record metadata_bytes to_le ℕ_discrete
answer_all-Agrees_example =
    answer_all-Agrees (λ st. 1) calls 4 calls_log (refl, (refl, ((refl, (refl, tt)), tt)))
      (omega arith)
      (omega arith, refl, (omega arith, refl, (omega arith, refl, (omega arith, refl, tt))))

-- With two shards, shard 0 holds two of the records and shard 1 holds two: both committed cursors are at 2, and a start
-- reads the records with gids 0 and 1 only.
restarted_quota-two_shards :
    map (λ (id : ℕ × ℕ). encode_record_id id.0 id.1 1) ((0, 0) ∷ (1, 0) ∷ (0, 1) ∷ (1, 1) ∷ [])
      ≡ 0 ∷ 1 ∷ 2 ∷ 3 ∷ []
    × (usage_of 1 7 (answer_all calls new_streams) ≡ record { records = 2; bytes = 1 })
    × (usage (restarted_quota (min 2 2) calls_log) (1, 7) ≡ no_usage)
unfolding answer_all append delete_stream batch_append append_each storage_append use_number
    same_target next_seq usage add reset record_tombstone check_quota bytes_eq find put key_discrete
    encode_record metadata_bytes to_le ℕ_discrete scan_records seed_loop seed_one rebuild_loop
    rebuild_one is_live cutoff encode_record_id
restarted_quota-two_shards = (refl, refl, refl)

-- A key of 256 bytes is encoded, with a length of zero, and not decoded.
abbrev long_key : Bytes
long_key = replicate 256 97

encode_record-long_key :
    elim (encode_record 1 7 3 [] [] ((long_key, []) ∷ []) 0 []) [
      | ok raw ↦ decode_record valid raw
      | err e ↦ err e
    ]
    ≡ err truncated
unfolding encode_record decode_record read_record read_metadata read_str read_bytes read_int
    metadata_bytes insert bytes_compare to_le from_le
encode_record-long_key = refl

abbrev two_records : StreamQuota
two_records = record {
  namespace = 110 ∷ [];
  stream = 115 ∷ [];
  max_records = some 2;
  max_bytes = some 10;
}

-- A step of an append to another stream: it counts its record.
abbrev other_step : Streams → Streams
other_step t = (step (counting (record (request (4 ∷ [])) { stream_id = 8 }) 1 [] []) t).1

other_step-usage_of : (t : Streams) → usage_of 1 7 (other_step t) ≡ usage_of 1 7 t
other_step-usage_of =
    step-usage_of 1 7 (counting (record (request (4 ∷ [])) { stream_id = 8 }) 1 [] [])
      (λ p. absurd (omega (arith, ap (λ k. k.1) p)))

abbrev between : List (Streams → Streams)
between = other_step ∷ other_step ∷ other_step ∷ other_step ∷ other_step ∷ other_step ∷ []

abbrev batch_answer : Handler × Streams
batch_answer =
    amid between (batching (two_records ∷ []) 1 7 (request (8 ∷ []) ∷ request [] ∷ [])) new_streams

batching-Answers_example :
    (o : Option (List ℕ)) × (batch_answer.0 ≡ replied o)
    × Answers 1 7
        (two_records ∷ [])
        (request (8 ∷ []))
        (request [] ∷ [])
        (usage_of 1 7 new_streams)
        (usage_of 1 7 batch_answer.1)
        o
unfolding usage find
batching-Answers_example =
    batching-Answers 1 7 (two_records ∷ []) (request (8 ∷ [])) (request [] ∷ []) new_streams between
      (
        other_step-usage_of,
        (
          other_step-usage_of,
          (
            other_step-usage_of,
            (other_step-usage_of, (other_step-usage_of, (other_step-usage_of, tt))),
          ),
        ),
      )
      (omega arith) (omega arith) (omega arith)

batch_answered : batch_answer.0 ≡ replied (some (1 ∷ 2 ∷ []))
unfolding amid step storage_append use_number same_target next_seq usage add check_quota bytes_eq
    find put key_discrete encode_record metadata_bytes to_le ℕ_discrete
batch_answered = refl

-- Two such batches whose checks come before the counts of both: each is answered, and the usage exceeds the quota.
abbrev one_batch : Handler
one_batch = batching (two_records ∷ []) 1 7 (request (8 ∷ []) ∷ request [] ∷ [])

abbrev overlapping : Handler × Handler × Streams
overlapping =
    overlapped
      (true ∷ false ∷ true ∷ true ∷ true ∷ true ∷ true ∷ false ∷ false ∷ false ∷ false ∷ false ∷ [])
      one_batch one_batch new_streams

overlapping-exceeds :
    (overlapping.0 ≡ replied (some (1 ∷ 2 ∷ [])))
    × (overlapping.1 ≡ replied (some (3 ∷ 4 ∷ [])))
    × (usage_of 1 7 overlapping.2 ≡ record { records = 4; bytes = 2 })
unfolding overlapped step storage_append use_number same_target next_seq usage add check_quota
    bytes_eq find put key_discrete encode_record metadata_bytes to_le ℕ_discrete
overlapping-exceeds = (refl, refl, refl)

-- A deletion that an append overlaps: the append is stored behind the tombstone and counted before the reset, which
-- forgets it.
abbrev deleting_over : Handler × Handler × Streams
deleting_over =
    overlapped (true ∷ false ∷ false ∷ false ∷ true ∷ true ∷ []) (deleting 1 7 true)
      (appending [] (request [])) new_streams

deleting_over-forgets :
    (deleting_over.2.records ≡ numbered 1 (deletion 1 7 true) ∷ numbered 2 (request []) ∷ [])
    × (usage_of 1 7 deleting_over.2 ≡ no_usage)
unfolding overlapped step storage_append use_number next_seq usage add reset record_tombstone
    check_quota find put key_discrete encode_record metadata_bytes to_le ℕ_discrete
deleting_over-forgets = (refl, refl)

-- An append of the event of a deletion: the server counts the record, and a start does not.
abbrev forged : Streams
forged = (append [] (record (request []) { event_type = stream_deleted_event }) new_streams).1

forged_counted : usage_of 1 7 forged ≡ record { records = 1; bytes = 0 }
unfolding append storage_append use_number next_seq usage add check_quota find put key_discrete
    encode_record metadata_bytes to_le ℕ_discrete
forged_counted = refl

forged_restarted : usage (quota_of forged.records) (1, 7) ≡ no_usage
unfolding append storage_append use_number next_seq usage add check_quota find put key_discrete
    encode_record metadata_bytes to_le ℕ_discrete seed_loop seed_one bytes_eq
forged_restarted = refl
