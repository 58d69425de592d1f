-- ===== src/Pipeline/Committer/Stall.antt =====
-- Where the loop of the committer (logdb/src/pipeline/committer.rs) stalls with several shards: it looks for a
-- sync only at the shard that it has chosen.
use lv_logdb.Prelude.{
  ℕ, suc, ◌-◌, ◌<◌, ◌≡◌, refl, sym, ap, ap₂, ◌∙◌, Bool, true, false, Option, ◌&&◌, ◌||◌, not, none,
  some, List, [], ◌∷◌, map, length, get_or, ltb, leb, if◌then◌else◌, arith, Bytes,
}
use lv_logdb.Pipeline.Committer.Round.{
  Committer, CommitShard, Moment, CommitTrigger, DurabilityMode, sync, batch, async, Turn, next,
  going, poll, drained, drain_shard, choose_shard, committed_at, durable_at, sync_step, end_round,
  after_commit, work, turn, committed_of, durable_of, Poll, elapsed_since, sync_due, pending_from,
  any_uncommitted, any_unsynced, idle, stop_or_drain, should_commit, estimate, commit_shard,
  finished,
}
use lv_logdb.Pipeline.Committer.Choice.{choose_shard-idle, any_uncommitted-waits, full_turn}

abbrev pub SyncsShard : DurabilityMode → Type 0
SyncsShard sync = Unit
SyncsShard batch = Unit
SyncsShard async = ⊥

-- Nothing waits to be committed; some shard has records that are not durable, but the current one has none.
pub record IsStalled (t : CommitTrigger) (avails : List ℕ) (c : Committer) : Type 0 where
  pub mode : SyncsShard t.durability
  pub inside : c.current_shard < length c.shards
  pub same : length avails ≡ length c.shards
  pub committed : any_uncommitted avails c.shards ≡ false
  pub unsynced : any_unsynced c.shards ≡ true
  pub own : durable_at c.shards c.current_shard ≡ committed_at c.shards c.current_shard

any_uncommitted-drained :
    (avails : List ℕ) (ss : List CommitShard)
    → any_uncommitted avails (map drain_shard ss) ≡ any_uncommitted avails ss
unfolding any_uncommitted
any_uncommitted-drained [] ss = refl
any_uncommitted-drained (a ∷ avails) [] = refl
any_uncommitted-drained (a ∷ avails) (s ∷ ss) =
    ap (λ b. ltb s.committed a || b) (any_uncommitted-drained avails ss)

any_unsynced-drained : (ss : List CommitShard) → any_unsynced (map drain_shard ss) ≡ any_unsynced ss
unfolding any_unsynced
any_unsynced-drained [] = refl
any_unsynced-drained (s ∷ ss) = ap (λ b. ltb s.durable s.committed || b) (any_unsynced-drained ss)

pub durable_of-drained : (ss : List CommitShard) → durable_of (map drain_shard ss) ≡ durable_of ss
durable_of-drained [] = refl
durable_of-drained (s ∷ ss) = ap (λ ds. s.durable ∷ ds) (durable_of-drained ss)

committed_of-drained : (ss : List CommitShard) → committed_of (map drain_shard ss) ≡ committed_of ss
committed_of-drained [] = refl
committed_of-drained (s ∷ ss) = ap (λ ds. s.committed ∷ ds) (committed_of-drained ss)

length-drained : (ss : List CommitShard) → length (map drain_shard ss) ≡ length ss
length-drained [] = refl
length-drained (s ∷ ss) = ap suc (length-drained ss)

drained-IsStalled :
    (t : CommitTrigger) (avails : List ℕ) (c : Committer)
    → IsStalled t avails c
    → IsStalled t avails (drained c)
drained-IsStalled t avails c i = record {
  mode = i.mode;
  inside = rw (length-drained c.shards) i.inside;
  same = i.same ∙ sym (length-drained c.shards);
  committed = any_uncommitted-drained avails c.shards ∙ i.committed;
  unsynced = any_unsynced-drained c.shards ∙ i.unsynced;
  own =
      ap (λ ds. get_or ds c.current_shard 0) (durable_of-drained c.shards)
      ∙ i.own
      ∙ ap (λ ds. get_or ds c.current_shard 0) (sym (committed_of-drained c.shards));
}

sync_due-none :
    (t : CommitTrigger) (mode : DurabilityMode) (p : Poll) (draining time_due : Bool)
    (bytes committed durable : ℕ)
    → SyncsShard mode
    → durable ≡ committed
    → sync_due t mode p draining time_due bytes committed durable ≡ false
sync_due-none t sync p draining time_due bytes committed durable m e = ground arith
sync_due-none t batch p draining time_due bytes committed durable m e =
    let off : ltb durable committed ≡ false = ground arith in
    ap (λ b. b && (time_due || leb t.bytes bytes || p.sync_for_flush || draining)) off
sync_due-none t async p draining time_due bytes committed durable m e = elim m [ ]

pending_from-false : (now : ℕ) (o : Option ℕ) → pending_from false now o ≡ o
pending_from-false now none = refl
pending_from-false now (some k) = refl

module _ (crc32c : Bytes → ℕ) (encode_payload : Bytes → Option Bytes) (age : ℕ → Option ℕ)
    (shard_bits : ℕ) where
  work-stalls :
      (t : CommitTrigger) (w : Moment) (p : Poll) (avails : List ℕ) (c : Committer) (si : ℕ)
      → SyncsShard t.durability
      → p.uncommitted ≡ false
      → p.unsynced ≡ true
      → durable_at c.shards si ≡ committed_at c.shards si
      → work crc32c encode_payload age shard_bits t w p avails c si ≡ next (drained c)
  unfolding work after_commit sync_step
  work-stalls t w p avails c si mode off behind own =
      let avail = get_or avails si 0 in
      let committed = committed_at c.shards si in
      let time_due = elapsed_since t.interval w.now c.pending_since in
      let bytes = estimate (avail - committed) in
      let commit : should_commit t p w.draining time_due committed avail ≡ false =
        none_asked p.uncommitted _ _ off in
      let due =
        sync_due-none t t.durability p w.draining time_due bytes committed (durable_at c.shards si)
          mode own in
      ap
        (λ b.
          after_commit crc32c encode_payload age shard_bits t w p time_due b bytes si
            (if b then commit_shard crc32c encode_payload age shard_bits w avail c si else going c))
        commit
      ∙ ap (λ d. end_round w p false d (sync_step w d c)) due
      ∙ ap (λ b. if b then finished c else next (drained c))
          (not_yet w.draining (not p.uncommitted) p.unsynced behind)
    where
      none_asked : (u a b : Bool) → u ≡ false → (u && a && b) ≡ false
      none_asked u a b e = rw e refl

      not_yet : (a b u : Bool) → u ≡ true → (a && b && not u) ≡ false
      not_yet true true u e = rw e refl
      not_yet true false u e = refl
      not_yet false b u e = refl

  -- Once nothing waits to be committed and the current shard has nothing to sync, no round in the modes Sync and
  -- Batch changes more than what the managers drain, at any moment, also while the database drains or a
  -- flush is pending, though another shard has records that are not durable; and the next round finds the same.
  pub turn-IsStalled :
      (t : CommitTrigger) (w : Moment) (avails : List ℕ) (c : Committer)
      → IsStalled t avails c
      → (turn crc32c encode_payload age shard_bits t w avails c ≡ next (drained c))
        × IsStalled t avails (drained c)
        × (durable_of (drained c).shards ≡ durable_of c.shards)
  unfolding turn
  turn-IsStalled t w avails c i =
      let p = poll avails c in
      let n = length c.shards in
      let choice = choose_shard n avails c.shards c.current_shard in
      let seen = record c {
        pending_since = pending_from p.uncommitted w.now c.pending_since;
        current_shard = choice.0;
      } in
      let go = work crc32c encode_payload age shard_bits t w p avails seen in
      let go' = work crc32c encode_payload age shard_bits t w p avails c c.current_shard in
      let back : choice ≡ (c.current_shard, none) =
        choose_shard-idle n avails c.shards c.current_shard i.inside
          (any_uncommitted-waits avails c.shards i.same i.committed)
        ∙ ap (λ k. (k, none)) (full_turn n c.current_shard i.inside) in
      let pending : pending_from p.uncommitted w.now c.pending_since ≡ c.pending_since =
        ap (λ u. pending_from u w.now c.pending_since) i.committed
        ∙ pending_from-false w.now c.pending_since in
      (
        awake p.uncommitted p.unsynced _ _ i.unsynced (idle w c) (elim choice.1 [
          | none ↦ if p.unsynced then go c.current_shard else stop_or_drain w seen
          | some si ↦ go si
        ])
            ∙ ap₂
                (λ (ch : ℕ × Option ℕ) (o : Option ℕ). elim ch.1 [
                  | none ↦
                      if p.unsynced
                      then work crc32c encode_payload age shard_bits t w p avails
                          (record c { pending_since = o; current_shard = ch.0 }) c.current_shard
                      else stop_or_drain w (record c { pending_since = o; current_shard = ch.0 })
                  | some si ↦
                      work crc32c encode_payload age shard_bits t w p avails
                        (record c { pending_since = o; current_shard = ch.0 }) si
                ])
                back pending
            ∙ ap (λ b. if b then go' else stop_or_drain w c) i.unsynced
            ∙ work-stalls t w p avails c c.current_shard i.mode i.committed i.unsynced i.own,
        drained-IsStalled t avails c i,
        durable_of-drained c.shards,
      )
    where
      awake :
          (u s a b : Bool)
          → s ≡ true
          → (x y : Turn) → (if not u && not s && not a && not b then x else y) ≡ y
      awake true s a b e x y = refl
      awake false s a b e x y = rw e refl
