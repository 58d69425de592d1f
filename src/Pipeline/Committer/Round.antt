-- ===== src/Pipeline/Committer/Round.antt =====
-- logdb/src/pipeline/committer.rs: one round of the loop of `run_committer`. The vectors `rings`,
-- `seg_mgrs`, `committed` and `durable` are one list of shards. A round sees one state of each ring, of
-- the shutdown signal and of the clock; `Moment` is what it sees. Waiting and back-off are left out.
mod Health
mod State
unfoldable pub use Health.*
unfoldable pub use State.*
use lv_logdb.Prelude.{
  ℕ, ◌+◌, ◌-◌, ◌*◌, ◌%◌, ◌^◌, min, Bool, true, false, not, ◌&&◌, ◌||◌, Option, none, some, List, [],
  ◌∷◌, map, length, get_elem?, get_or, set, ltb, leb, if◌then◌else◌, Bytes, ok, err,
}
use lv_logdb.Shard.{encode_record_id}
use lv_logdb.Pipeline.Flush.{complete_all}
use lv_logdb.Pipeline.Committer.{choose_batch_end}
use lv_logdb.Storage.Segments.{SegmentManager, SegmentError, full, io}
use lv_logdb.Storage.Segments.Append.{Outcome, append_batch}
use lv_logdb.Storage.Segments.Roll.{Done, roll, save_active_index}
use lv_logdb.Storage.Segments.Sync.{sync_all}

abbrev pub elapsed_since : ℕ → ℕ → Option ℕ → Bool
elapsed_since interval now none = false
elapsed_since interval now (some t) = leb interval (now - t)

-- `pending_since` once the round has seen a record.
abbrev pub pending_from : Bool → ℕ → Option ℕ → Option ℕ
pending_from uncommitted now (some t) = some t
pending_from uncommitted now none = if uncommitted then some now else none

abbrev pub unwrap_or : Option ℕ → ℕ → ℕ
unwrap_or none d = d
unwrap_or (some n) d = n

-- `batch_bytes_estimate`, of a count of records.
abbrev pub estimate : ℕ → ℕ
estimate batch_count = min (batch_count * 256) (2 ^ 64 - 1)

abbrev pub should_commit : CommitTrigger → Poll → Bool → Bool → ℕ → ℕ → Bool
should_commit t p draining time_due committed avail =
    p.uncommitted
    && ltb committed avail
    && (leb t.bytes (estimate (avail - committed))
        || leb t.records (avail - committed)
        || time_due
        || p.commit_for_flush
        || draining)

abbrev pub sync_due : CommitTrigger → DurabilityMode → Poll → Bool → Bool → ℕ → ℕ → ℕ → Bool
sync_due t sync p draining time_due bytes committed durable = ltb durable committed
sync_due t batch p draining time_due bytes committed durable =
    ltb durable committed && (time_due || leb t.bytes bytes || p.sync_for_flush || draining)
sync_due t async p draining time_due bytes committed durable = p.sync_for_flush || draining

-- The code that an error gives: only an I/O error can be a full disk.
abbrev pub error_code : Moment → SegmentError → ℕ
error_code w io = if w.enospc then health_disk_full else health_io_error
error_code w full = health_io_error

abbrev pub failed : Moment → SegmentError → Committer → Committer
failed w e c = record c { health = set_error w.now (error_code w e) c.health }

-- A manager's state after a call, put back.
abbrev pub with_manager : Committer → ℕ → CommitShard → SegmentManager → Committer
with_manager c si s m = record c { shards = set c.shards si (record s { manager = m }) }

-- A batch up to `last_written` is in the segment.
abbrev pub advanced : Moment → ℕ → Committer → ℕ → CommitShard → SegmentManager → ℕ → Committer
advanced w avail c si s m last_written =
    let committed = (last_written + 1) % 2 ^ 64 in
    record c {
      shards = set c.shards si (record {
        ring = record s.ring { committed_cursor = committed };
        manager = m;
        committed = committed;
        durable = s.durable;
      });
      pending_since = if leb avail committed then none else some w.now;
      health = clear_if_recovered c.health;
    }

-- The part of a round that commits: `retry` stands for `continue`.
pub data Commit : Type 0 where
  retry : Committer → Commit
  going : Committer → Commit
  commit_panicked : Commit

-- `seg_mgrs[si].roll(…)` has returned.
abbrev pub rolled : Moment → Committer → ℕ → CommitShard → Done SegmentManager → Commit
rolled w c si s (ok u, m) = retry (with_manager c si s m)
rolled w c si s (err e, m) = retry (failed w e (with_manager c si s m))

-- A manager has been synced; `rest` is what becomes of the others, if it succeeded.
abbrev pub sync_then :
    CommitShard
    → List CommitShard
    → Done SegmentManager
    → Done (List CommitShard)
    → Done (List CommitShard)
sync_then s ss (err e, m) rest = (err e, record s { manager = m } ∷ ss)
sync_then s ss (ok u, m) rest = (rest.0, record s { manager = m } ∷ rest.1)

-- The loop of the sync over the managers, which stops at the first error.
unfoldable pub sync_shards : List CommitShard → Done (List CommitShard)
sync_shards [] = (ok tt, [])
sync_shards (s ∷ ss) = sync_then s ss (sync_all s.manager) (sync_shards ss)

-- A shard whose committed records are durable, with its index saved.
abbrev pub make_durable : CommitShard → CommitShard
make_durable s = record {
  ring = record s.ring { durable_cursor = s.committed };
  manager = save_active_index s.manager;
  committed = s.committed;
  durable = s.committed;
}

-- All cursors are advanced, and the flushes told.
unfoldable pub report : Committer → Committer
report c = record c {
  shards = map make_durable c.shards;
  flush = complete_all c.flush 0 (committed_of c.shards);
}

abbrev pub synced : Moment → Committer → Done (List CommitShard) → Bool × Committer
synced w c (ok u, ss) = (true, report (record c { shards = ss }))
synced w c (err e, ss) = (false, failed w e (record c { shards = ss }))

-- The sync, if it is due: whether the round goes on.
unfoldable pub sync_step : Moment → Bool → Committer → Bool × Committer
sync_step w due c =
    if due && ltb (min_of (durable_of c.shards)) (max_of (committed_of c.shards))
    then synced w c (sync_shards c.shards)
    else (true, c)

-- What a round does after the sync.
abbrev pub end_round : Moment → Poll → Bool → Bool → Bool × Committer → Turn
end_round w p commit due (false, c) = next c
end_round w p commit due (true, c) =
    if w.draining && not p.uncommitted && not p.unsynced
    then finished c
    else if not commit && not due
    then next (drained c)
    else next c

module _ (crc32c : Bytes → ℕ) (encode_payload : Bytes → Option Bytes) (age : ℕ → Option ℕ)
    (shard_bits : ℕ) where
  abbrev pub appended : Moment → ℕ → Committer → ℕ → CommitShard → Outcome ℕ → Commit
  appended w avail c si s none = commit_panicked
  appended w avail c si s (some (ok last_written, m)) =
      going (advanced w avail c si s m last_written)
  appended w avail c si s (some (err full, m)) =
      rolled w c si s (roll crc32c age m (encode_record_id si s.committed shard_bits) w.checkpoint)
  appended w avail c si s (some (err io, m)) = retry (failed w io (with_manager c si s m))

  -- An index out of range panics.
  unfoldable pub commit_shard : Moment → ℕ → Committer → ℕ → Commit
  commit_shard w avail c si = elim (get_elem? c.shards si) [
    | none ↦ commit_panicked
    | some s ↦ appended w avail c si s (
        append_batch crc32c encode_payload s.ring s.committed
          (choose_batch_end s.committed avail (w.buf_cap si)) s.manager)
  ]

  -- The round from the commit decision on, for the shard `si`.
  unfoldable pub after_commit : CommitTrigger → Moment → Poll → Bool → Bool → ℕ → ℕ → Commit → Turn
  after_commit t w p time_due commit bytes si commit_panicked = panicked
  after_commit t w p time_due commit bytes si (retry c) = next c
  after_commit t w p time_due commit bytes si (going c) =
      let due =
        sync_due t t.durability p w.draining time_due bytes (committed_at c.shards si)
          (durable_at c.shards si) in
      end_round w p commit due (sync_step w due c)

  unfoldable pub work : CommitTrigger → Moment → Poll → List ℕ → Committer → ℕ → Turn
  work t w p avails c si =
      let avail = get_or avails si 0 in
      let committed = committed_at c.shards si in
      let time_due = elapsed_since t.interval w.now c.pending_since in
      let commit = should_commit t p w.draining time_due committed avail in
      after_commit t w p time_due commit (estimate (avail - committed)) si
        (if commit then commit_shard w avail c si else going c)

  -- One round, on what the rings have.
  unfoldable pub turn : CommitTrigger → Moment → List ℕ → Committer → Turn
  turn t w avails c =
      let p = poll avails c in
      let choice = choose_shard (length c.shards) avails c.shards c.current_shard in
      let seen = record c {
        pending_since = pending_from p.uncommitted w.now c.pending_since;
        current_shard = choice.0;
      } in
      if fully_idle p then idle w c else elim choice.1 [
        | none ↦ if p.unsynced then work t w p avails seen c.current_shard else stop_or_drain w seen
        | some si ↦ work t w p avails seen si
      ]

  unfoldable pub round : ℕ → CommitTrigger → Moment → Committer → Option Turn
  round fuel t w c = elim (poll_rings fuel c.shards) [
    | none ↦ none
    | some avails ↦ some (turn t w avails c)
  ]
