-- ===== src/Pipeline/Committer/Safe.antt =====
-- A round of the committer (logdb/src/pipeline/committer.rs) from the commit on, over managers in order: what it
-- reports as durable is on stable storage.
use lv_logdb.Prelude.{
  ℕ, zero, suc, ◌+◌, ◌-◌, ◌^◌, ◌≤◌, ◌<◌, ◌≡◌, refl, sym, ap, subst, ◌∙◌, inl, inr, Bool, true,
  false, Option, ◌&&◌, none, some, Option-cases, List, [], ◌∷◌, length, get_elem?, get_or, set,
  if◌then◌else◌, if_intro, arith, Bytes, ok, err, All,
}
use lv_logdb.Ring.{Ring}
use lv_logdb.Pipeline.Committer.{choose_batch_end}
use lv_logdb.Pipeline.Committer.Batch.{choose_batch_end-lt}
use lv_logdb.Pipeline.Committer.Round.{
  Committer, CommitShard, Moment, CommitTrigger, Turn, Commit, next, finished, panicked, retry,
  going, commit_panicked, poll, choose_shard, committed_at, durable_at, sync_step, idle,
  stop_or_drain, fully_idle, commit_shard, after_commit, work, turn, durable_of, Poll,
  elapsed_since, should_commit, estimate, sync_due, pending_from, all_durable, rolled, appended,
}
use lv_logdb.Pipeline.Committer.Advance.{committed_at-get_elem?, some_ready, small_at}
use lv_logdb.Pipeline.Committer.Durable.{
  InOrder, TurnDurableSafe, drained-DurableSafe, sync_step-DurableSafe, end_round-DurableSafe,
}
use lv_logdb.Storage.Segments.{SegmentManager}
use lv_logdb.Storage.Segments.Manager.{IsManager}
use lv_logdb.Storage.Segments.Append.{Outcome}
use lv_logdb.Storage.Segments.Append.Loop.{AllViews}
use lv_logdb.Storage.Segments.Append.Stored.{IsRaw, append_batch-Appended}
use lv_logdb.Storage.Segments.Roll.{Done}

-- A manager in order with an active segment without frames that is not beyond its size, and records in the ranges of
-- their field types from the committed cursor up to `avail`.
pub record IsReady (avail : ℕ) (s : CommitShard) : Type 0 where
  pub manager_in : IsManager s.manager
  pub raw : IsRaw s.manager
  pub next_id : s.manager.active_id + 1 < 2 ^ 32
  pub size_in : s.manager.segment_size < 2 ^ 63
  pub room : s.manager.active.offset ≤ s.manager.segment_size
  pub records_in : AllViews s.ring s.committed (avail - s.committed)

-- For each shard.
abbrev pub AllReady : List ℕ → List CommitShard → Type 0
AllReady [] [] = Unit
AllReady [] (s ∷ ss) = ⊥
AllReady (a ∷ avails) [] = Unit
AllReady (a ∷ avails) (s ∷ ss) = IsReady a s × AllReady avails ss

AllReady-get_elem? :
    (avails : List ℕ) (ss : List CommitShard) (si : ℕ) (s : CommitShard)
    → AllReady avails ss
    → get_elem? ss si ≡ some s
    → IsReady (get_or avails si 0) s
AllReady-get_elem? [] [] si s r e = absurd cc
AllReady-get_elem? [] (t ∷ ts) si s r e = elim r [ ]
AllReady-get_elem? (a ∷ avails) [] si s r e = absurd cc
AllReady-get_elem? (a ∷ avails) (t ∷ ts) zero s r e =
    let same : t ≡ s = cc in subst (IsReady a) same r.0
AllReady-get_elem? (a ∷ avails) (t ∷ ts) (suc si) s r e = AllReady-get_elem? avails ts si s r.1 e

AllReady-InOrder : (avails : List ℕ) (ss : List CommitShard) → AllReady avails ss → All InOrder ss
AllReady-InOrder [] [] r = tt
AllReady-InOrder [] (t ∷ ts) r = elim r [ ]
AllReady-InOrder (a ∷ avails) [] r = tt
AllReady-InOrder (a ∷ avails) (t ∷ ts) r = (r.0.manager_in, AllReady-InOrder avails ts r.1)

AllViews-front : (r : Ring) (seq n k : ℕ) → n ≤ k → AllViews r seq k → AllViews r seq n
unfolding AllViews
AllViews-front r seq zero k le v = tt
AllViews-front r seq (suc n) zero le v = absurd (omega arith)
AllViews-front r seq (suc n) (suc k) le v = (v.0, AllViews-front r (seq + 1) n k (omega arith) v.1)

set-InOrder :
    (ss : List CommitShard) (si : ℕ) (t : CommitShard)
    → InOrder t
    → All InOrder ss
    → All InOrder (set ss si t)
set-InOrder [] si t v vs = tt
set-InOrder (u ∷ us) zero t v vs = (v, vs.1)
set-InOrder (u ∷ us) (suc si) t v vs = (vs.0, set-InOrder us si t v vs.1)

durable_of-set :
    (ss : List CommitShard) (si : ℕ) (s t : CommitShard)
    → get_elem? ss si ≡ some s
    → t.durable ≡ s.durable
    → durable_of (set ss si t) ≡ durable_of ss
durable_of-set [] si s t e d = refl
durable_of-set (u ∷ us) zero s t e d =
    let same : u ≡ s = cc in
    ap (λ k. k ∷ durable_of us) (d ∙ ap (λ (x : CommitShard). x.durable) (sym same))
durable_of-set (u ∷ us) (suc si) s t e d = ap (λ ds. u.durable ∷ ds) (durable_of-set us si s t e d)

-- A commit moves no durable cursor, and a sync may follow it.
abbrev CommitInOrder : Committer → Commit → Type 0
CommitInOrder c commit_panicked = Unit
CommitInOrder c (retry c') = durable_of c'.shards ≡ durable_of c.shards
CommitInOrder c (going c') = (durable_of c'.shards ≡ durable_of c.shards) × All InOrder c'.shards

rolled-durable_of :
    (w : Moment) (c : Committer) (si : ℕ) (s : CommitShard) (d : Done SegmentManager)
    → get_elem? c.shards si ≡ some s
    → CommitInOrder c (rolled w c si s d)
rolled-durable_of w c si s (ok u, m) e = durable_of-set c.shards si s _ e refl
rolled-durable_of w c si s (err f, m) e = durable_of-set c.shards si s _ e refl

module _ (crc32c : Bytes → ℕ) (encode_payload : Bytes → Option Bytes) (age : ℕ → Option ℕ)
    (shard_bits : ℕ) where
  commit_shard-CommitInOrder :
      (w : Moment) (avails : List ℕ) (c : Committer) (si : ℕ)
      → committed_at c.shards si < get_or avails si 0
      → get_or avails si 0 < 2 ^ 64
      → AllReady avails c.shards
      → CommitInOrder c
          (commit_shard crc32c encode_payload age shard_bits w (get_or avails si 0) c si)
  unfolding commit_shard
  commit_shard-CommitInOrder w avails c si less small i =
      elim (Option-cases (get_elem? c.shards si)) [
        | inl e ↦ rw (commit_shard, e) tt
        | inr t ↦
            let s = t.0 in
            let e = t.1 in
            let avail = get_or avails si 0 in
            let at = committed_at-get_elem? c.shards si s e in
            let v = AllReady-get_elem? avails c.shards si s i e in
            let to = choose_batch_end s.committed avail (w.buf_cap si) in
            let within = choose_batch_end-lt s.committed avail (w.buf_cap si) (omega arith) small in
            let views =
              AllViews-front s.ring s.committed (to + 1 - s.committed) (avail - s.committed)
                (omega (arith, within)) v.records_in in
            let written =
              append_batch-Appended crc32c s.ring encode_payload s.committed to s.manager
                v.manager_in v.raw v.next_id v.size_in v.room within.0 views in
            rw (commit_shard, e)
              (elim written [
                | inl over ↦
                    let o = over.0 in
                    subst
                      (λ (o : Outcome ℕ).
                        CommitInOrder c
                          (appended crc32c encode_payload age shard_bits w avail c si s o))
                      (sym o) (rolled-durable_of w c si s _ e)
                | inr done ↦
                    subst
                      (λ (o : Outcome ℕ).
                        CommitInOrder c
                          (appended crc32c encode_payload age shard_bits w avail c si s o))
                      (sym done.2)
                      (
                        durable_of-set c.shards si s _ e refl,
                        set-InOrder c.shards si _ done.3.valid (AllReady-InOrder avails c.shards i),
                      )
              ])
      ]

  after_commit-DurableSafe :
      (t : CommitTrigger) (w : Moment) (p : Poll) (time_due commit : Bool) (bytes si : ℕ)
      (c : Committer) (m : Commit)
      → CommitInOrder c m
      → TurnDurableSafe c
          (after_commit crc32c encode_payload age shard_bits t w p time_due commit bytes si m)
  unfolding after_commit
  after_commit-DurableSafe t w p time_due commit bytes si c commit_panicked h = tt
  after_commit-DurableSafe t w p time_due commit bytes si c (retry c') h = inl h
  after_commit-DurableSafe t w p time_due commit bytes si c (going c') h =
      let due =
        sync_due t t.durability p w.draining time_due bytes (committed_at c'.shards si)
          (durable_at c'.shards si) in
      end_round-DurableSafe w p commit due c (sync_step w due c')
        (elim (sync_step-DurableSafe w due c' h.1) [
          | inl none_due ↦ inl (ap (λ (r : Bool × Committer). durable_of r.1.shards) none_due ∙ h.0)
          | inr synced ↦
              inr (synced.0, elim synced.1 [ inl same ↦ inl (same ∙ h.0) | inr safe ↦ inr safe ])
        ])

  work-DurableSafe :
      (t : CommitTrigger) (w : Moment) (p : Poll) (avails : List ℕ) (c : Committer) (si : ℕ)
      → get_or avails si 0 < 2 ^ 64
      → AllReady avails c.shards
      → TurnDurableSafe c (work crc32c encode_payload age shard_bits t w p avails c si)
  unfolding work
  work-DurableSafe t w p avails c si small i =
      let avail = get_or avails si 0 in
      let committed = committed_at c.shards si in
      let time_due = elapsed_since t.interval w.now c.pending_since in
      let commit = should_commit t p w.draining time_due committed avail in
      after_commit-DurableSafe t w p time_due commit (estimate (avail - committed)) si c
        (if commit then commit_shard crc32c encode_payload age shard_bits w avail c si else going c)
        (if_intro (CommitInOrder c) commit
          (λ e.
            commit_shard-CommitInOrder w avails c si (some_ready p.uncommitted committed avail _ e)
              small i)
          (λ e. (refl, AllReady-InOrder avails c.shards i)))

  idle-DurableSafe : (w : Moment) (c : Committer) → TurnDurableSafe c (idle w c)
  idle-DurableSafe w c =
      if_intro (TurnDurableSafe c) (w.draining && all_durable c.shards) (λ e. inl refl)
        (λ e. drained-DurableSafe c (record c { pending_since = none }) refl)

  stop_or_drain-DurableSafe :
      (w : Moment) (c seen : Committer)
      → durable_of seen.shards ≡ durable_of c.shards
      → TurnDurableSafe c (stop_or_drain w seen)
  stop_or_drain-DurableSafe w c seen same =
      if_intro (TurnDurableSafe c) (w.draining && all_durable seen.shards) (λ e. inl same)
        (λ e. drained-DurableSafe c seen same)

  -- A round of the committer over managers in order, with segments without frames, a segment size below
  -- 2 ^ 63, active segments not beyond it, next segment ids below 2 ^ 32 and records in the ranges of their field types, moves no durable cursor, or else after it, on every shard, all
  -- that is committed is durable, and no segment file from the active one down has a byte at risk.
  pub turn-DurableSafe :
      (t : CommitTrigger) (w : Moment) (avails : List ℕ) (c : Committer)
      → All (λ a. a < 2 ^ 64) avails
      → AllReady avails c.shards
      → TurnDurableSafe c (turn crc32c encode_payload age shard_bits t w avails c)
  unfolding turn
  turn-DurableSafe t w avails c small i =
      let p = poll avails c in
      let choice = choose_shard (length c.shards) avails c.shards c.current_shard in
      let seen = record c {
        pending_since = pending_from p.uncommitted w.now c.pending_since;
        current_shard = choice.0;
      } in
      let go = work crc32c encode_payload age shard_bits t w p avails seen in
      if_intro (TurnDurableSafe c) (fully_idle p) (λ e. idle-DurableSafe w c)
        (λ e.
          chosen choice.1 p.unsynced (go c.current_shard) (stop_or_drain w seen) go
            (again seen (go c.current_shard) refl (
              work-DurableSafe t w p avails seen c.current_shard
                (small_at avails c.current_shard small) i))
            (stop_or_drain-DurableSafe w c seen refl)
            (λ si.
              again seen (go si) refl
                (work-DurableSafe t w p avails seen si (small_at avails si small) i)))
    where
      again :
          (seen : Committer) (o : Turn)
          → c.shards ≡ seen.shards
          → TurnDurableSafe seen o
          → TurnDurableSafe c o
      again seen panicked e a = tt
      again seen (next c') e a = rw e a
      again seen (finished c') e a = rw e a

      chosen :
          (o : Option ℕ) (unsynced : Bool) (stay stop : Turn) (go : ℕ → Turn)
          → TurnDurableSafe c stay
          → TurnDurableSafe c stop
          → ((si : ℕ) → TurnDurableSafe c (go si))
          → TurnDurableSafe c (elim o [ none ↦ if unsynced then stay else stop | some si ↦ go si ])
      chosen none true stay stop go a b h = a
      chosen none false stay stop go a b h = b
      chosen (some si) unsynced stay stop go a b h = h si
