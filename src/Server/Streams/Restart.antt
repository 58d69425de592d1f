-- ===== src/Server/Streams/Restart.antt =====
-- A run of the handlers of logdbd/src/service.rs, and a start after it.
use lv_logdb.Prelude.{
  ℕ, suc, ◌+◌, ◌^◌, ◌<◌, ◌≡◌, refl, sym, ap, Bool, true, false, Option, none, some, List, [], ◌∷◌,
  length, map, All, if◌then◌else◌, if_intro, arith, Bytes, bytes_eq, bytes_eq_refl, Result, ok, err,
  find, subst, lt→ltb,
}
use lv_logdb.Server.Record.{DecodedRecord, RecordError}
use lv_logdb.Server.Tombstone.{stream_deleted_event, cutoff, rebuild_loop}
use lv_logdb.Server.Quota.{StreamQuota, usage, seed_loop, check_quota}
use lv_logdb.Server.Streams.{
  Streams, AppendRequest, Call, append_call, delete_call, next_seq, numbered, use_number, store,
  storage_append, counted_in, append, deletion, deleted, delete_stream, batch_call, append_each,
  then_each, directed, batch_append, same_target, total_bytes, most_used, most_used_by, answered,
  answer_all, new_streams, scan_records, or_empty, seed_records, restarted_tombstones,
  restarted_quota,
}
use lv_logdb.Server.Streams.Tracked.{
  Agrees, tombstones_of, quota_of, IsTracked, IsTracked-le, used-IsTracked, next_seq-used,
  cutoff-used,
}
use lv_logdb.Server.Streams.Within.{length-map-directed}
use lv_logdb.Server.Streams.Tracked.Stored.{counted-IsTracked, deleted-IsTracked}

-- Not the event of a deletion.
abbrev IsLive : AppendRequest → Type 0
IsLive r = bytes_eq r.event_type stream_deleted_event ≡ false

-- The log has these records in order, each below the gid and decodable.
abbrev pub IsRead : ℕ → List (ℕ × Option DecodedRecord) → List DecodedRecord → Type 0
IsRead to_gid [] [] = Unit
IsRead to_gid [] (d ∷ ds) = ⊥
IsRead to_gid ((gid, r) ∷ log) [] = ⊥
IsRead to_gid ((gid, r) ∷ log) (d ∷ ds) = (gid < to_gid) × (r ≡ some d) × IsRead to_gid log ds

scan_records-IsRead :
    (to_gid : ℕ) (log : List (ℕ × Option DecodedRecord)) (ds : List DecodedRecord)
    → IsRead to_gid log ds
    → scan_records to_gid log ≡ some ds
unfolding scan_records
scan_records-IsRead to_gid [] [] read = refl
scan_records-IsRead to_gid [] (d ∷ ds) read = absurd read
scan_records-IsRead to_gid ((gid, r) ∷ log) [] read = absurd read
scan_records-IsRead to_gid ((gid, r) ∷ log) (d ∷ ds) (below, decodes, read) =
    rw (lt→ltb gid to_gid below, decodes, scan_records-IsRead to_gid log ds read) refl

seed_records-IsRead :
    (committed : ℕ) (log : List (ℕ × Option DecodedRecord)) (ds : List DecodedRecord)
    → IsRead committed log ds
    → seed_records committed log ≡ ds
seed_records-IsRead committed log ds read = ap or_empty (scan_records-IsRead committed log ds read)

module _ (ns_of : ℕ → ℕ) where
  -- No caller appends the event of a deletion; a stream is deleted in its namespace.
  abbrev pub IsCall : Call → Type 0
  IsCall (append_call quotas r) = IsLive r
  IsCall (batch_call quotas namespace_id stream_id rs) = All IsLive rs
  IsCall (delete_call namespace_id stream_id taken) = namespace_id ≡ ns_of stream_id

  module _ (n : ℕ) (s : Streams) (tracked : IsTracked ns_of n s) (small : n + 1 < 2 ^ 64) where
    counted_in-IsTracked :
        (r : AppendRequest)
        → IsLive r
        → IsTracked ns_of (n + 1) (counted_in r (storage_append r s)).1
    unfolding storage_append
    counted_in-IsTracked r live = stored r.taken _
      where
        seq : ℕ
        seq = next_seq s r.stream_id

        stored :
            (taken : Bool) (o : Result RecordError Bytes)
            → IsTracked ns_of
                (n + 1)
                (counted_in r (store (use_number r.stream_id s) (numbered seq r) taken o)).1
        stored taken (err e) = used-IsTracked ns_of r.stream_id n s tracked small
        stored false (ok bytes) = used-IsTracked ns_of r.stream_id n s tracked small
        stored true (ok bytes) =
            counted-IsTracked ns_of (n + 1) (use_number r.stream_id s)
              (used-IsTracked ns_of r.stream_id n s tracked small) (numbered seq r)
              (sym (next_seq-used ns_of r.stream_id n s tracked small))
              (cutoff-used ns_of r.stream_id n s tracked small) live

    append-IsTracked :
        (quotas : List StreamQuota) (r : AppendRequest)
        → IsLive r
        → IsTracked ns_of (n + 1) (append quotas r s).1
    unfolding append
    append-IsTracked quotas r live =
        if_intro {A = Option ℕ × Streams} (λ t. IsTracked ns_of (n + 1) t.1)
          (check_quota quotas r.namespace r.stream (usage s.quota (r.namespace_id, r.stream_id)) 1
            (length r.content))
          {x = counted_in r (storage_append r s)} {y = (none, s)} (λ e. counted_in-IsTracked r live)
          (λ e. IsTracked-le ns_of n (n + 1) s (omega arith) tracked)

    delete_stream-IsTracked :
        (namespace_id stream_id : ℕ) (taken : Bool)
        → namespace_id ≡ ns_of stream_id
        → IsTracked ns_of (n + 1) (delete_stream namespace_id stream_id taken s).1
    unfolding delete_stream storage_append
    delete_stream-IsTracked namespace_id stream_id taken in_ns = stored taken _
      where
        used : IsTracked ns_of (n + 1) (use_number stream_id s)
        used = used-IsTracked ns_of stream_id n s tracked small

        stored :
            (taken : Bool) (o : Result RecordError Bytes)
            → IsTracked ns_of
                (n + 1)
                (deleted namespace_id stream_id (
                  store
                    (use_number stream_id s)
                    (numbered (next_seq s stream_id) (deletion namespace_id stream_id true))
                    taken
                    o)).1
        stored taken (err e) = used
        stored false (ok bytes) = used
        stored true (ok bytes) =
            deleted-IsTracked ns_of (n + 1) (use_number stream_id s) used
              (numbered (next_seq s stream_id) (deletion namespace_id stream_id true))
              (sym (next_seq-used ns_of stream_id n s tracked small))
              (cutoff-used ns_of stream_id n s tracked small) (bytes_eq_refl stream_deleted_event)
              in_ns

  append_each-IsTracked :
      (rs : List AppendRequest) (n : ℕ) (s : Streams)
      → All IsLive rs
      → n + length rs < 2 ^ 64
      → IsTracked ns_of n s
      → IsTracked ns_of (n + length rs) (append_each rs s).1
  unfolding append_each
  append_each-IsTracked [] n s live small tracked =
      IsTracked-le ns_of n (n + 0) s (omega arith) tracked
  append_each-IsTracked (r ∷ rs) n s live small tracked =
      each (counted_in r (storage_append r s)) one (
        append_each-IsTracked rs (n + 1) (counted_in r (storage_append r s)).1 live.1 (omega arith)
          one)
    where
      one : IsTracked ns_of (n + 1) (counted_in r (storage_append r s)).1
      one = counted_in-IsTracked n s tracked (omega arith) r live.0

      each :
          (o : Option ℕ × Streams)
          → IsTracked ns_of (n + 1) o.1
          → IsTracked ns_of (n + 1 + length rs) (append_each rs o.1).1
          → IsTracked ns_of (n + suc (length rs)) (then_each o (append_each rs o.1)).1
      each (none, t) now rest = IsTracked-le ns_of _ _ _ (omega arith) now
      each (some seq, t) now rest = last (append_each rs t) rest
        where
          last :
              (q : Option (List ℕ) × Streams)
              → IsTracked ns_of (n + 1 + length rs) q.1
              → IsTracked ns_of (n + suc (length rs)) (then_each (some seq, t) q).1
          last (none, u) rest = IsTracked-le ns_of _ _ _ (omega arith) rest
          last (some seqs, u) rest = IsTracked-le ns_of _ _ _ (omega arith) rest

  map-IsLive :
      (namespace_id stream_id : ℕ) (rs : List AppendRequest)
      → All IsLive rs
      → All IsLive (map (directed namespace_id stream_id) rs)
  map-IsLive namespace_id stream_id [] live = tt
  map-IsLive namespace_id stream_id (r ∷ rs) live =
      (live.0, map-IsLive namespace_id stream_id rs live.1)

  batch_append-IsTracked :
      (quotas : List StreamQuota) (namespace_id stream_id : ℕ) (rs : List AppendRequest) (n : ℕ)
      (s : Streams)
      → All IsLive rs
      → n + length rs < 2 ^ 64
      → IsTracked ns_of n s
      → IsTracked ns_of (n + length rs) (batch_append quotas namespace_id stream_id rs s).1
  unfolding batch_append
  batch_append-IsTracked quotas namespace_id stream_id [] n s live small tracked =
      IsTracked-le ns_of n (n + 0) s (omega arith) tracked
  batch_append-IsTracked quotas namespace_id stream_id (r ∷ rs) n s live small tracked =
      guarded (same_target r rs) (
        check_quota quotas r.namespace r.stream (usage s.quota (namespace_id, stream_id))
          (length (r ∷ rs)) (total_bytes (r ∷ rs)))
    where
      all : List AppendRequest
      all = map (directed namespace_id stream_id) (r ∷ rs)

      appended : IsTracked ns_of (n + length (r ∷ rs)) (append_each all s).1
      appended =
          let same = length-map-directed namespace_id stream_id rs in
          IsTracked-le ns_of _ _ _ (omega arith) (
            append_each-IsTracked all n s (map-IsLive namespace_id stream_id (r ∷ rs) live)
              (omega arith) tracked)

      guarded :
          (a b : Bool)
          → IsTracked ns_of
              (n + length (r ∷ rs))
              (if a then if b then append_each all s else (none, s) else (none, s)).1
      guarded false b = IsTracked-le ns_of _ _ _ (omega arith) tracked
      guarded true false = IsTracked-le ns_of _ _ _ (omega arith) tracked
      guarded true true = appended

  answered-IsTracked :
      (c : Call) (n : ℕ) (s : Streams)
      → IsCall c
      → n + most_used c < 2 ^ 64
      → IsTracked ns_of n s
      → IsTracked ns_of (n + most_used c) (answered c s)
  answered-IsTracked (append_call quotas r) n s live small tracked =
      append-IsTracked n s tracked small quotas r live
  answered-IsTracked (batch_call quotas namespace_id stream_id rs) n s live small tracked =
      batch_append-IsTracked quotas namespace_id stream_id rs n s live small tracked
  answered-IsTracked (delete_call namespace_id stream_id taken) n s in_ns small tracked =
      delete_stream-IsTracked n s tracked small namespace_id stream_id taken in_ns

  answer_all-IsTracked :
      (cs : List Call) (n : ℕ) (s : Streams)
      → All IsCall cs
      → n + most_used_by cs < 2 ^ 64
      → IsTracked ns_of n s
      → IsTracked ns_of (n + most_used_by cs) (answer_all cs s)
  unfolding answer_all
  answer_all-IsTracked [] n s calls small tracked =
      IsTracked-le ns_of n (n + 0) s (omega arith) tracked
  answer_all-IsTracked (c ∷ cs) n s calls small tracked = IsTracked-le ns_of _ _ _ (omega arith) (
      answer_all-IsTracked cs (n + most_used c) (answered c s) calls.1 (omega arith)
        (answered-IsTracked c n s calls.0 (omega arith) tracked))

  new_streams-IsTracked : IsTracked ns_of 1 new_streams
  unfolding next_seq find cutoff usage rebuild_loop seed_loop
  new_streams-IsTracked = record {
    agrees = record { cutoffs = λ st. refl; usages = λ st. refl };
    numbers = λ st. omega arith;
    below = tt;
    above_cutoff = λ st. omega arith;
  }

  -- `append`, `batch_append` and `delete_stream` are called from an empty log on, one after the other so that no two
  -- overlap, answered or not. They use fewer than 2^64 - 1 numbers; none appends a record with the event of a deletion,
  -- and each deletion names the stream's namespace. A start then reads a log that has their records in order, all of
  -- them decodable and with gids below `committed_gid`, as with one shard whose records are all committed; with more
  -- shards it can leave records out. The cutoffs and the usages that the start makes are the ones the server had.
  pub answer_all-Agrees :
      (cs : List Call) (committed : ℕ) (log : List (ℕ × Option DecodedRecord))
      → All IsCall cs
      → 1 + most_used_by cs < 2 ^ 64
      → IsRead committed log (answer_all cs new_streams).records
      → Agrees ns_of
          (restarted_tombstones committed log)
          (restarted_quota committed log)
          (answer_all cs new_streams)
  answer_all-Agrees cs committed log calls small read =
      subst
        (λ records.
          Agrees ns_of (tombstones_of records) (quota_of records) (answer_all cs new_streams))
        (sym (seed_records-IsRead committed log (answer_all cs new_streams).records read))
        (answer_all-IsTracked cs 1 new_streams calls small new_streams-IsTracked).agrees
