-- ===== src/Pipeline/Committer/Stopped.antt =====
-- When the committer (logdb/src/pipeline/committer.rs) returns: it was told to, and nothing is left to do.
use lv_logdb.Prelude.{
  ℕ, ◌-◌, ◌≤◌, ◌<◌, ◌≡◌, refl, sym, ◌∙◌, Bool, true, false, Option, ◌&&◌, not, none, some, List, [],
  ◌∷◌, map, length, get_or, ltb, if◌then◌else◌, if_intro, arith, Bytes, ok, err, All,
}
use lv_logdb.Pipeline.Committer.Round.{
  Committer, CommitShard, Moment, CommitTrigger, Turn, Commit, next, finished, panicked, retry,
  going, commit_panicked, poll, choose_shard, committed_at, durable_at, sync_shards, report, synced,
  sync_step, idle, stop_or_drain, fully_idle, end_round, commit_shard, after_commit, work, turn,
  committed_of, durable_of, Poll, elapsed_since, should_commit, estimate, sync_due, pending_from,
  min_of, max_of, all_durable, any_uncommitted, any_unsynced, make_durable,
}
use lv_logdb.Pipeline.Committer.Cursors.{IsShard, IsCommitter, Alike, Alike-sync_shards}
use lv_logdb.Pipeline.Committer.Choice.{choose_shard-none_waits}
use lv_logdb.Storage.Segments.Roll.{Done}

-- Each shard has committed what its ring had, and all of that is durable.
abbrev pub CaughtUp : List ℕ → List CommitShard → Type 0
CaughtUp [] ss = Unit
CaughtUp (a ∷ avails) [] = Unit
CaughtUp (a ∷ avails) (s ∷ ss) = (a ≤ s.committed) × (s.durable ≡ s.committed) × CaughtUp avails ss

-- If a round returns, the database drains, and all is caught up.
abbrev pub Stopped : Moment → List ℕ → Turn → Type 0
Stopped w avails panicked = Unit
Stopped w avails (next c) = Unit
Stopped w avails (finished c) = (w.draining ≡ true) × CaughtUp avails c.shards

caught_up :
    (avails : List ℕ) (ss : List CommitShard)
    → All IsShard ss
    → any_uncommitted avails ss ≡ false
    → any_unsynced ss ≡ false
    → CaughtUp avails ss
unfolding any_uncommitted any_unsynced
caught_up [] ss v a b = tt
caught_up (x ∷ avails) [] v a b = tt
caught_up (x ∷ avails) (s ∷ ss) (v, vs) a b =
    let behind = v.behind in
    (ground arith, ground arith, caught_up avails ss vs (ground arith) (ground arith))

CaughtUp-Alike :
    (avails : List ℕ) (ss ts : List CommitShard)
    → Alike ss ts
    → CaughtUp avails ss
    → CaughtUp avails ts
CaughtUp-Alike [] ss ts a c = tt
CaughtUp-Alike (x ∷ avails) [] [] a c = tt
CaughtUp-Alike (x ∷ avails) [] (t ∷ ts) a c = elim a [ ]
CaughtUp-Alike (x ∷ avails) (s ∷ ss) [] a c = tt
CaughtUp-Alike (x ∷ avails) (s ∷ ss) (t ∷ ts) a c =
    (omega (arith, a.1, c.0), a.2 ∙ c.1 ∙ sym a.1, CaughtUp-Alike avails ss ts a.3 c.2)

CaughtUp-make_durable :
    (avails : List ℕ) (ss : List CommitShard)
    → CaughtUp avails ss
    → CaughtUp avails (map make_durable ss)
CaughtUp-make_durable [] ss c = tt
CaughtUp-make_durable (x ∷ avails) [] c = tt
CaughtUp-make_durable (x ∷ avails) (s ∷ ss) c = (c.0, refl, CaughtUp-make_durable avails ss c.2)

CaughtUp-sync_step :
    (w : Moment) (due : Bool) (avails : List ℕ) (c : Committer)
    → CaughtUp avails c.shards
    → CaughtUp avails (sync_step w due c).1.shards
unfolding sync_step report
CaughtUp-sync_step w due avails c h =
    if_intro (λ (r : Bool × Committer). CaughtUp avails r.1.shards)
      (due && ltb (min_of (durable_of c.shards)) (max_of (committed_of c.shards)))
      (λ e.
        each (sync_shards c.shards)
          (CaughtUp-Alike avails c.shards (sync_shards c.shards).1 (Alike-sync_shards c.shards) h))
      (λ e. h)
  where
    each :
        (d : Done (List CommitShard))
        → CaughtUp avails d.1
        → CaughtUp avails (synced w c d).1.shards
    each (ok u, ss) h = CaughtUp-make_durable avails ss h
    each (err e, ss) h = h

-- The three tests in front of a return.
nothing_left :
    (draining uncommitted unsynced : Bool)
    → (draining && not uncommitted && not unsynced) ≡ true
    → (draining ≡ true) × (uncommitted ≡ false) × (unsynced ≡ false)
nothing_left true false false e = (refl, refl, refl)
nothing_left true true b e = absurd cc
nothing_left true false true e = absurd cc
nothing_left false a b e = absurd cc

end_round-Stopped :
    (w : Moment) (p : Poll) (commit due : Bool) (avails : List ℕ) (r : Bool × Committer)
    → (p.uncommitted ≡ false → p.unsynced ≡ false → CaughtUp avails r.1.shards)
    → Stopped w avails (end_round w p commit due r)
end_round-Stopped w p commit due avails (false, c) h = tt
end_round-Stopped w p commit due avails (true, c) h =
    if_intro (Stopped w avails) (w.draining && not p.uncommitted && not p.unsynced)
      (λ e. let n = nothing_left w.draining p.uncommitted p.unsynced e in (n.0, h n.1 n.2))
      (λ e. if_intro (Stopped w avails) (not commit && not due) (λ e'. tt) (λ e'. tt))

-- The commit changes nothing.
abbrev Unmoved : List ℕ → Commit → Type 0
Unmoved avails commit_panicked = Unit
Unmoved avails (retry c) = Unit
Unmoved avails (going c) = CaughtUp avails c.shards

both_true : (a b : Bool) → (a && b) ≡ true → a ≡ true
both_true true b e = refl
both_true false b e = absurd cc

stop_or_drain-Stopped :
    (w : Moment) (avails : List ℕ) (c : Committer)
    → CaughtUp avails c.shards
    → Stopped w avails (stop_or_drain w c)
stop_or_drain-Stopped w avails c h =
    if_intro (Stopped w avails) (w.draining && all_durable c.shards)
      (λ e. (both_true w.draining (all_durable c.shards) e, h)) (λ e. tt)

idle-Stopped :
    (w : Moment) (avails : List ℕ) (c : Committer)
    → CaughtUp avails c.shards
    → Stopped w avails (idle w c)
idle-Stopped w avails c h =
    if_intro (Stopped w avails) (w.draining && all_durable c.shards)
      (λ e. (both_true w.draining (all_durable c.shards) e, h)) (λ e. tt)

module _ (crc32c : Bytes → ℕ) (encode_payload : Bytes → Option Bytes) (age : ℕ → Option ℕ)
    (shard_bits : ℕ) where
  after_commit-Stopped :
      (t : CommitTrigger) (w : Moment) (p : Poll) (time_due commit : Bool) (bytes si : ℕ)
      (avails : List ℕ) (m : Commit)
      → (p.uncommitted ≡ false → p.unsynced ≡ false → Unmoved avails m)
      → Stopped w avails
          (after_commit crc32c encode_payload age shard_bits t w p time_due commit bytes si m)
  unfolding after_commit
  after_commit-Stopped t w p time_due commit bytes si avails commit_panicked h = tt
  after_commit-Stopped t w p time_due commit bytes si avails (retry c) h = tt
  after_commit-Stopped t w p time_due commit bytes si avails (going c) h =
      let due =
        sync_due t t.durability p w.draining time_due bytes (committed_at c.shards si)
          (durable_at c.shards si) in
      end_round-Stopped w p commit due avails (sync_step w due c)
        (λ u s. CaughtUp-sync_step w due avails c (h u s))

  work-Stopped :
      (t : CommitTrigger) (w : Moment) (p : Poll) (avails : List ℕ) (c : Committer) (si : ℕ)
      → (p.uncommitted ≡ false → p.unsynced ≡ false → CaughtUp avails c.shards)
      → Stopped w avails (work crc32c encode_payload age shard_bits t w p avails c si)
  unfolding work
  work-Stopped t w p avails c si h =
      let avail = get_or avails si 0 in
      let committed = committed_at c.shards si in
      let time_due = elapsed_since t.interval w.now c.pending_since in
      let commit = should_commit t p w.draining time_due committed avail in
      after_commit-Stopped t w p time_due commit (estimate (avail - committed)) si avails
        (if commit then commit_shard crc32c encode_payload age shard_bits w avail c si else going c)
        (if_intro (λ (m : Commit). p.uncommitted ≡ false → p.unsynced ≡ false → Unmoved avails m)
          commit (λ e u s. absurd (no_commit p.uncommitted _ _ e u)) (λ e u s. h u s))
    where
      no_commit : (u a b : Bool) → (u && a && b) ≡ true → u ≡ false → ⊥
      no_commit true a b e f = cc
      no_commit false a b e f = cc

  -- The committer returns only while the database drains. Then every shard has committed all that its ring
  -- had in that round, and all of that is durable.
  pub turn-Stopped :
      (t : CommitTrigger) (w : Moment) (avails : List ℕ) (c : Committer)
      → c.current_shard < length c.shards
      → IsCommitter c
      → Stopped w avails (turn crc32c encode_payload age shard_bits t w avails c)
  unfolding turn
  turn-Stopped t w avails c inside i =
      let p = poll avails c in
      let choice = choose_shard (length c.shards) avails c.shards c.current_shard in
      let seen = record c {
        pending_since = pending_from p.uncommitted w.now c.pending_since;
        current_shard = choice.0;
      } in
      let go = work crc32c encode_payload age shard_bits t w p avails seen in
      let caught = caught_up avails c.shards i.shards_in in
      if_intro (Stopped w avails) (fully_idle p)
        (λ e.
          let n = idle_means p.uncommitted p.unsynced _ _ e in
          idle-Stopped w avails c (caught n.0 n.1))
        (λ e.
          chosen choice.1 p.unsynced (go c.current_shard) (stop_or_drain w seen) go
            (work-Stopped t w p avails seen c.current_shard caught)
            (λ none_chosen s. stop_or_drain-Stopped w avails seen (
              caught (choose_shard-none_waits avails c.shards c.current_shard inside none_chosen)
                s))
            (λ si. work-Stopped t w p avails seen si caught))
    where
      idle_means :
          (u s a b : Bool) → (not u && not s && not a && not b) ≡ true → (u ≡ false) × (s ≡ false)
      idle_means false false a b e = (refl, refl)
      idle_means true s a b e = absurd cc
      idle_means false true a b e = absurd cc

      chosen :
          (o : Option ℕ) (unsynced : Bool) (stay stop : Turn) (go : ℕ → Turn)
          → Stopped w avails stay
          → (o ≡ none → unsynced ≡ false → Stopped w avails stop)
          → ((si : ℕ) → Stopped w avails (go si))
          → Stopped w avails (elim o [ none ↦ if unsynced then stay else stop | some si ↦ go si ])
      chosen none true stay stop go a b h = a
      chosen none false stay stop go a b h = b refl refl
      chosen (some si) unsynced stay stop go a b h = h si
