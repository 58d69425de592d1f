-- ===== src/Server/Streams.antt =====
-- How the server appends to streams and deletes them: `Storage::append` of logdbd/src/storage.rs with the numbers of
-- each stream, and `append`, `batch_append` and `delete_stream` of logdbd/src/service.rs with the trackers, each as a run
-- with no other handler between its steps: the source holds no lock over them, and Handlers has the steps on their own.
-- The log is the list of the records that it has taken; whether it takes one is part of the request. At the end, the start
-- of logdbd/src/main.rs, which reads the log.
pub mod Tracked
pub mod Restart
pub mod Handlers
pub mod Within
pub mod Amid
use lv_logdb.Prelude.{
  ℕ, ◌+◌, ◌%◌, ◌^◌, ltb, Bool, true, false, Option, none, some, List, [], ◌∷◌, ◌++◌, Bytes,
  bytes_eq, ◌&&◌, map, length, if◌then◌else◌, find, put, ℕ_discrete, Result, ok, err,
}
use lv_logdb.Server.Record.{DecodedRecord, Metadata, RecordError, encode_record}
use lv_logdb.Server.Tombstone.{
  TombstoneTracker, stream_deleted_event, record_tombstone, is_live, rebuild_from_records,
}
use lv_logdb.Server.Quota.{
  QuotaTracker, StreamQuota, usage, add, reset, seed_from_records, check_quota,
}

pub record Streams : Type 0 where
  pub next_seqs : List (ℕ × ℕ)
  pub records : List DecodedRecord
  pub quota : QuotaTracker
  pub tombstones : TombstoneTracker

-- A request after its names are resolved and its content type is filled in, with the names for the quotas. `taken` is the answer of the log.
pub record AppendRequest : Type 0 where
  pub namespace : Bytes
  pub stream : Bytes
  pub namespace_id : ℕ
  pub stream_id : ℕ
  pub event_type : Bytes
  pub content_type : Bytes
  pub metadata : Metadata
  pub timestamp_ns : ℕ
  pub content : Bytes
  pub taken : Bool

abbrev pub next_or_one : Option ℕ → ℕ
next_or_one none = 1
next_or_one (some n) = n

-- The number that the next record of the stream gets.
unfoldable pub next_seq : Streams → ℕ → ℕ
next_seq s stream_id = next_or_one (find ℕ_discrete stream_id s.next_seqs)

abbrev pub numbered : ℕ → AppendRequest → DecodedRecord
numbered seq r = record {
  namespace_id = r.namespace_id;
  stream_id = r.stream_id;
  seq = seq;
  event_type = r.event_type;
  content_type = r.content_type;
  metadata = r.metadata;
  timestamp_ns = r.timestamp_ns;
  user_content = r.content;
  shard_id = 0;
}

-- What becomes of the record once it is encoded. A number is used up also where the append fails.
abbrev pub store : Streams → DecodedRecord → Bool → Result RecordError Bytes → Option ℕ × Streams
store s d taken (err e) = (none, s)
store s d false (ok bytes) = (none, s)
store s d true (ok bytes) = (some d.seq, record s { records = s.records ++ (d ∷ []) })

-- The stream's next number is one more; the numbers are `u64`.
unfoldable pub use_number : ℕ → Streams → Streams
use_number stream_id s = record s {
  next_seqs = put ℕ_discrete stream_id ((next_seq s stream_id + 1) % 2 ^ 64) s.next_seqs;
}

-- `Storage::append`: the number of the record, and the state.
unfoldable pub storage_append : AppendRequest → Streams → Option ℕ × Streams
storage_append r s =
    let seq = next_seq s r.stream_id in
    store (use_number r.stream_id s) (numbered seq r) r.taken (
      encode_record r.namespace_id r.stream_id seq r.event_type r.content_type r.metadata
        r.timestamp_ns r.content)

abbrev pub counted_in : AppendRequest → Option ℕ × Streams → Option ℕ × Streams
counted_in r (none, s) = (none, s)
counted_in r (some seq, s) =
    (some seq, record s { quota = add (r.namespace_id, r.stream_id) (length r.content) s.quota })

-- The handler `append`, from the check of the quota on, where no other handler comes between its steps.
unfoldable pub append : List StreamQuota → AppendRequest → Streams → Option ℕ × Streams
append quotas r s =
    if check_quota quotas r.namespace r.stream (usage s.quota (r.namespace_id, r.stream_id)) 1
      (length r.content)
    then counted_in r (storage_append r s)
    else (none, s)

abbrev pub then_each : Option ℕ × Streams → Option (List ℕ) × Streams → Option (List ℕ) × Streams
then_each (none, s) rest = (none, s)
then_each (some seq, s) (none, s') = (none, s')
then_each (some seq, s) (some seqs, s') = (some (seq ∷ seqs), s')

-- The loop of `batch_append`. It ends at the first record that is not taken.
unfoldable pub append_each : List AppendRequest → Streams → Option (List ℕ) × Streams
append_each [] s = (some [], s)
append_each (r ∷ rs) s =
    let one = counted_in r (storage_append r s) in
    let rest = append_each rs one.1 in then_each one rest

unfoldable pub same_target : AppendRequest → List AppendRequest → Bool
same_target r [] = true
same_target r (q ∷ qs) =
    bytes_eq q.namespace r.namespace && bytes_eq q.stream r.stream && same_target r qs

abbrev pub total_bytes : List AppendRequest → ℕ
total_bytes [] = 0
total_bytes (r ∷ rs) = length r.content + total_bytes rs

-- The ids of the first request are those of all.
abbrev pub directed : ℕ → ℕ → AppendRequest → AppendRequest
directed namespace_id stream_id r = record r { namespace_id = namespace_id; stream_id = stream_id }

-- The handler `batch_append`, where no other handler comes between its steps: the numbers of the records.
unfoldable pub batch_append :
    List StreamQuota → ℕ → ℕ → List AppendRequest → Streams → Option (List ℕ) × Streams
batch_append quotas namespace_id stream_id [] s = (some [], s)
batch_append quotas namespace_id stream_id (r ∷ rs) s =
    if same_target r rs
    then if check_quota quotas r.namespace r.stream (usage s.quota (namespace_id, stream_id))
        (length (r ∷ rs)) (total_bytes (r ∷ rs))
      then append_each (map (directed namespace_id stream_id) (r ∷ rs)) s
      else (none, s)
    else (none, s)

-- The request of `delete_stream` to the storage. Its content type is `"application/json"`.
abbrev pub deletion : ℕ → ℕ → Bool → AppendRequest
deletion namespace_id stream_id taken = record {
  namespace = [];
  stream = [];
  namespace_id = namespace_id;
  stream_id = stream_id;
  event_type = stream_deleted_event;
  content_type =
      b'a' ∷ b'p' ∷ b'p' ∷ b'l' ∷ b'i' ∷ b'c' ∷ b'a' ∷ b't' ∷ b'i' ∷ b'o' ∷ b'n' ∷ b'/' ∷ b'j'
      ∷ b's' ∷ b'o' ∷ b'n' ∷ [];
  metadata = [];
  timestamp_ns = 0;
  content = [];
  taken = taken;
}

abbrev pub deleted : ℕ → ℕ → Option ℕ × Streams → Option ℕ × Streams
deleted namespace_id stream_id (none, s) = (none, s)
deleted namespace_id stream_id (some seq, s) = (
  some seq,
  record s {
    tombstones = record_tombstone stream_id seq s.tombstones;
    quota = reset (namespace_id, stream_id) s.quota;
  },
)

-- The handler `delete_stream`, where no other handler comes between its steps: the number of the tombstone.
unfoldable pub delete_stream : ℕ → ℕ → Bool → Streams → Option ℕ × Streams
delete_stream namespace_id stream_id taken s =
    deleted namespace_id stream_id (storage_append (deletion namespace_id stream_id taken) s)

abbrev pub both : Option DecodedRecord → Option (List DecodedRecord) → Option (List DecodedRecord)
both none rest = none
both (some r) none = none
both (some r) (some rs) = some (r ∷ rs)

-- `Storage::scan` from 0 to below a gid, over the log: each record's gid, and what decoding its content gives.
unfoldable pub scan_records : ℕ → List (ℕ × Option DecodedRecord) → Option (List DecodedRecord)
scan_records to_gid [] = some []
scan_records to_gid ((gid, r) ∷ log) =
    let rest = scan_records to_gid log in if ltb gid to_gid then both r rest else rest

abbrev pub or_empty : Option (List DecodedRecord) → List DecodedRecord
or_empty none = []
or_empty (some rs) = rs

-- The records that a start reads (logdbd/src/main.rs). `committed` is `committed_gid`, the least of the committed cursors
-- of the shards: it counts the records of a shard, and bounds the gids. A scan that fails gives none.
abbrev pub seed_records : ℕ → List (ℕ × Option DecodedRecord) → List DecodedRecord
seed_records committed log = or_empty (scan_records committed log)

-- What a start makes of them.
abbrev pub restarted_tombstones : ℕ → List (ℕ × Option DecodedRecord) → TombstoneTracker
restarted_tombstones committed log = rebuild_from_records (seed_records committed log)

abbrev pub restarted_quota : ℕ → List (ℕ × Option DecodedRecord) → QuotaTracker
restarted_quota committed log =
    seed_from_records (seed_records committed log) (is_live (restarted_tombstones committed log))

pub data Call : Type 0 where
  append_call : List StreamQuota → AppendRequest → Call
  batch_call : List StreamQuota → ℕ → ℕ → List AppendRequest → Call
  delete_call : ℕ → ℕ → Bool → Call

abbrev pub answered : Call → Streams → Streams
answered (append_call quotas r) s = (append quotas r s).1
answered (batch_call quotas namespace_id stream_id rs) s =
    (batch_append quotas namespace_id stream_id rs s).1
answered (delete_call namespace_id stream_id taken) s =
    (delete_stream namespace_id stream_id taken s).1

-- How many numbers a call may use.
abbrev pub most_used : Call → ℕ
most_used (append_call quotas r) = 1
most_used (batch_call quotas namespace_id stream_id rs) = length rs
most_used (delete_call namespace_id stream_id taken) = 1

abbrev pub most_used_by : List Call → ℕ
most_used_by [] = 0
most_used_by (c ∷ cs) = most_used c + most_used_by cs

-- One call after the other, none of which overlaps another one.
unfoldable pub answer_all : List Call → Streams → Streams
answer_all [] s = s
answer_all (c ∷ cs) s = answer_all cs (answered c s)

abbrev pub new_streams : Streams
new_streams = record { next_seqs = []; records = []; quota = []; tombstones = [] }
