-- ===== src/Pipeline/Committer/Turned.antt =====
-- The cursors over a whole round of the committer (logdb/src/pipeline/committer.rs).
use lv_logdb.Prelude.{
  ℕ, ◌-◌, ◌^◌, ◌<◌, ◌≡◌, refl, Bool, true, false, Option, ◌&&◌, not, none, some, List, length,
  get_or, ltb, if◌then◌else◌, if_intro, Bytes, ok, err, All,
}
use lv_logdb.Pipeline.Committer.Round.{
  Committer, CommitShard, Moment, CommitTrigger, Turn, Commit, next, finished, panicked, retry,
  going, commit_panicked, poll, drained, choose_shard, committed_at, durable_at, sync_shards,
  report, synced, sync_step, idle, stop_or_drain, fully_idle, end_round, commit_shard, after_commit,
  work, turn, committed_of, durable_of, Poll, elapsed_since, should_commit, estimate, sync_due,
  pending_from, min_of, max_of, all_durable,
}
use lv_logdb.Pipeline.Committer.Cursors.{
  IsCommitter, Advanced, Alike-sync_shards, Alike-Advanced, Advanced-trans,
}
use lv_logdb.Pipeline.Committer.Advance.{
  CommitAdvanced, TurnAdvanced, Advanced-refl, drained-Advanced, report-Advanced,
  commit_shard-CommitAdvanced, some_ready, small_at,
}
use lv_logdb.Storage.Segments.Roll.{Done}

synced-Advanced :
    (w : Moment) (c : Committer) (d : Done (List CommitShard))
    → Advanced c (record c { shards = d.1 })
    → Advanced c (synced w c d).1
synced-Advanced w c (ok u, ss) a =
    Advanced-trans c (record c { shards = ss }) (report (record c { shards = ss })) a
      (report-Advanced (record c { shards = ss }) a.valid)
synced-Advanced w c (err e, ss) a = record {
  valid = record { shards_in = a.valid.shards_in; backed = a.valid.backed };
  grown = a.grown;
}

sync_step-Advanced :
    (w : Moment) (due : Bool) (c : Committer) → IsCommitter c → Advanced c (sync_step w due c).1
unfolding sync_step
sync_step-Advanced w due c i =
    if_intro (λ (r : Bool × Committer). Advanced c r.1)
      (due && ltb (min_of (durable_of c.shards)) (max_of (committed_of c.shards)))
      (λ e. synced-Advanced w c (sync_shards c.shards) (
        Alike-Advanced c (record c { shards = (sync_shards c.shards).1 })
          (Alike-sync_shards c.shards) refl i))
      (λ e. Advanced-refl c i)

end_round-Advanced :
    (w : Moment) (p : Poll) (commit due : Bool) (c : Committer) (r : Bool × Committer)
    → Advanced c r.1
    → TurnAdvanced c (end_round w p commit due r)
end_round-Advanced w p commit due c (false, c') a = a
end_round-Advanced w p commit due c (true, c') a =
    if_intro (TurnAdvanced c) (w.draining && not p.uncommitted && not p.unsynced) (λ e. a)
      (λ e.
        if_intro (TurnAdvanced c) (not commit && not due)
          (λ e'. Advanced-trans c c' (drained c') a (drained-Advanced c' a.valid)) (λ e'. a))

idle-Advanced : (w : Moment) (c : Committer) → IsCommitter c → TurnAdvanced c (idle w c)
idle-Advanced w c i =
    if_intro (TurnAdvanced c) (w.draining && all_durable c.shards) (λ e. Advanced-refl c i)
      (λ e.
        let a = drained-Advanced c i in
        record {
          valid = record { shards_in = a.valid.shards_in; backed = a.valid.backed };
          grown = a.grown;
        })

stop_or_drain-Advanced :
    (w : Moment) (c : Committer) → IsCommitter c → TurnAdvanced c (stop_or_drain w c)
stop_or_drain-Advanced w c i =
    if_intro (TurnAdvanced c) (w.draining && all_durable c.shards) (λ e. Advanced-refl c i)
      (λ e. drained-Advanced c i)

module _ (crc32c : Bytes → ℕ) (encode_payload : Bytes → Option Bytes) (age : ℕ → Option ℕ)
    (shard_bits : ℕ) where
  after_commit-Advanced :
      (t : CommitTrigger) (w : Moment) (p : Poll) (time_due commit : Bool) (bytes si : ℕ)
      (c : Committer) (m : Commit)
      → CommitAdvanced c m
      → TurnAdvanced c
          (after_commit crc32c encode_payload age shard_bits t w p time_due commit bytes si m)
  unfolding after_commit
  after_commit-Advanced t w p time_due commit bytes si c commit_panicked a = tt
  after_commit-Advanced t w p time_due commit bytes si c (retry c') a = a
  after_commit-Advanced t w p time_due commit bytes si c (going c') a =
      let due =
        sync_due t t.durability p w.draining time_due bytes (committed_at c'.shards si)
          (durable_at c'.shards si) in
      end_round-Advanced w p commit due c (sync_step w due c')
        (Advanced-trans c c' (sync_step w due c').1 a (sync_step-Advanced w due c' a.valid))

  work-Advanced :
      (t : CommitTrigger) (w : Moment) (p : Poll) (avails : List ℕ) (c : Committer) (si : ℕ)
      → get_or avails si 0 < 2 ^ 64
      → IsCommitter c
      → TurnAdvanced c (work crc32c encode_payload age shard_bits t w p avails c si)
  unfolding work
  work-Advanced t w p avails c si small i =
      let avail = get_or avails si 0 in
      let committed = committed_at c.shards si in
      let time_due = elapsed_since t.interval w.now c.pending_since in
      let commit = should_commit t p w.draining time_due committed avail in
      after_commit-Advanced t w p time_due commit (estimate (avail - committed)) si c
        (if commit then commit_shard crc32c encode_payload age shard_bits w avail c si else going c)
        (if_intro (CommitAdvanced c) commit
          (λ e.
            commit_shard-CommitAdvanced crc32c encode_payload age shard_bits w avail c si
              (some_ready p.uncommitted committed avail _ e) small i)
          (λ e. Advanced-refl c i))

  -- A round keeps, for every trigger, moment and records that the rings have: each shard's durable
  -- cursor is at most its committed one, the ring has both, and each flush is told only of durable
  -- records. No cursor goes back. So it is also when the round fails half-way, rolls or stops.
  pub turn-Advanced :
      (t : CommitTrigger) (w : Moment) (avails : List ℕ) (c : Committer)
      → All (λ a. a < 2 ^ 64) avails
      → IsCommitter c
      → TurnAdvanced c (turn crc32c encode_payload age shard_bits t w avails c)
  unfolding turn
  turn-Advanced t w avails c small i =
      let p = poll avails c in
      let choice = choose_shard (length c.shards) avails c.shards c.current_shard in
      let seen = record c {
        pending_since = pending_from p.uncommitted w.now c.pending_since;
        current_shard = choice.0;
      } in
      let i' : IsCommitter seen = record { shards_in = i.shards_in; backed = i.backed } in
      let go = work crc32c encode_payload age shard_bits t w p avails seen in
      if_intro (TurnAdvanced c) (fully_idle p) (λ e. idle-Advanced w c i)
        (λ e.
          chosen c seen choice.1 p.unsynced (go c.current_shard) (stop_or_drain w seen) go
            (again c seen (go c.current_shard) refl (
              work-Advanced t w p avails seen c.current_shard
                (small_at avails c.current_shard small) i'))
            (again c seen (stop_or_drain w seen) refl (stop_or_drain-Advanced w seen i'))
            (λ si.
              again c seen (go si) refl
                (work-Advanced t w p avails seen si (small_at avails si small) i')))
    where
      again :
          (c seen : Committer) (o : Turn)
          → c.shards ≡ seen.shards
          → TurnAdvanced seen o
          → TurnAdvanced c o
      again c seen panicked e a = tt
      again c seen (next c') e a = record { valid = a.valid; grown = rw e a.grown }
      again c seen (finished c') e a = record { valid = a.valid; grown = rw e a.grown }

      chosen :
          (c seen : Committer) (o : Option ℕ) (unsynced : Bool) (stay stop : Turn) (go : ℕ → Turn)
          → TurnAdvanced c stay
          → TurnAdvanced c stop
          → ((si : ℕ) → TurnAdvanced c (go si))
          → TurnAdvanced c (elim o [ none ↦ if unsynced then stay else stop | some si ↦ go si ])
      chosen c seen none true stay stop go a b h = a
      chosen c seen none false stay stop go a b h = b
      chosen c seen (some si) unsynced stay stop go a b h = h si
