-- ===== src/Pipeline/Committer/Durable.antt =====
-- What the committer (logdb/src/pipeline/committer.rs) reports as durable is on stable storage.
use lv_logdb.Prelude.{
  ℕ, ◌≤◌, ◌≡◌, refl, sym, ap, subst, ◌∙◌, ◌⊎◌, inl, inr, Bool, true, false, Bool-cases, ◌&&◌, not,
  List, [], ◌∷◌, map, ltb, if_intro, arith, ok, err, All,
}
use lv_logdb.Pipeline.Committer.Round.{
  Committer, CommitShard, Moment, Turn, next, finished, panicked, drained, sync_then, sync_shards,
  report, synced, sync_step, end_round, committed_of, durable_of, Poll, min_of, max_of,
  make_durable,
}
use lv_logdb.Pipeline.Committer.Stall.{durable_of-drained}
use lv_logdb.Storage.Disk.{Dir, at_risk}
use lv_logdb.Storage.Segments.{SegmentManager}
use lv_logdb.Storage.Segments.Manager.{IsManager}
use lv_logdb.Storage.Segments.Roll.{Done}
use lv_logdb.Storage.Segments.Sync.{sync_all, sync_end, sync_paths}
use lv_logdb.Storage.Segments.Sync.Durable.{sync_all-Durable}

-- All that is committed is durable, and no file of the shard up to the active one has bytes at risk.
pub record IsSafe (s : CommitShard) : Type 0 where
  pub all : s.durable ≡ s.committed
  pub on_disk : (id : ℕ) → id ≤ s.manager.active_id → at_risk id s.manager.dir ≡ false

abbrev OnDisk : CommitShard → Type 0
OnDisk s = (id : ℕ) → id ≤ s.manager.active_id → at_risk id s.manager.dir ≡ false

abbrev pub InOrder : CommitShard → Type 0
InOrder s = IsManager s.manager

sync_end-active_id : (m : SegmentManager) (d : Done Dir) → (sync_end m d).1.active_id ≡ m.active_id
sync_end-active_id m (ok u, dir) = refl
sync_end-active_id m (err e, dir) = refl

sync_all-active_id : (m : SegmentManager) → (sync_all m).1.active_id ≡ m.active_id
unfolding sync_all
sync_all-active_id m = sync_end-active_id m (sync_paths m.pending_fsync m.dir)

sync_all-on_disk :
    (m m' : SegmentManager)
    → IsManager m
    → sync_all m ≡ (ok tt, m')
    → (id : ℕ) → id ≤ m'.active_id
    → at_risk id m'.dir ≡ false
sync_all-on_disk m m' i e id le =
    let same : m'.active_id ≡ m.active_id =
      ap (λ (d : Done SegmentManager). d.1.active_id) (sym e) ∙ sync_all-active_id m in
    elim (sync_all-Durable m id i (omega arith)) [
      | inl lost ↦ absurd (let z = lost.1 in cc)
      | inr done ↦
          subst (λ (x : SegmentManager). at_risk id x.dir ≡ false)
            (ap (λ (d : Done SegmentManager). d.1) (sym done.1 ∙ e)) done.2
    ]

-- A sync of all managers that succeeds.
sync_shards-OnDisk :
    (ss : List CommitShard)
    → All InOrder ss
    → (sync_shards ss).0 ≡ ok tt
    → All OnDisk (sync_shards ss).1
unfolding sync_shards
sync_shards-OnDisk [] v e = tt
sync_shards-OnDisk (s ∷ ss) (v, vs) e =
    each (sync_all s.manager) refl (sync_shards ss) (sync_shards-OnDisk ss vs) e
  where
    each :
        (m : Done SegmentManager)
        → sync_all s.manager ≡ m
        → (rest : Done (List CommitShard)) → (rest.0 ≡ ok tt → All OnDisk rest.1)
        → (sync_then s ss m rest).0 ≡ ok tt
        → All OnDisk (sync_then s ss m rest).1
    each (err f, m) same rest h e = absurd cc
    each (ok u, m) same rest h e = (sync_all-on_disk s.manager m v same, h e)

durable_of-sync_shards : (ss : List CommitShard) → durable_of (sync_shards ss).1 ≡ durable_of ss
unfolding sync_shards
durable_of-sync_shards [] = refl
durable_of-sync_shards (s ∷ ss) =
    each (sync_all s.manager) (sync_shards ss) (durable_of-sync_shards ss)
  where
    each :
        (m : Done SegmentManager) (rest : Done (List CommitShard))
        → durable_of rest.1 ≡ durable_of ss
        → durable_of (sync_then s ss m rest).1 ≡ durable_of (s ∷ ss)
    each (err f, m) rest h = refl
    each (ok u, m) rest h = ap (λ ds. s.durable ∷ ds) h

make_durable-IsSafe : (ss : List CommitShard) → All OnDisk ss → All IsSafe (map make_durable ss)
make_durable-IsSafe [] h = tt
make_durable-IsSafe (s ∷ ss) (h, hs) =
    (record { all = refl; on_disk = h }, make_durable-IsSafe ss hs)

-- Either no durable cursor has moved, or all shards are safe.
abbrev pub DurableSafe : Committer → Committer → Type 0
DurableSafe c c' = (durable_of c'.shards ≡ durable_of c.shards) ⊎ All IsSafe c'.shards

synced-DurableSafe :
    (w : Moment) (c : Committer) (d : Done (List CommitShard))
    → durable_of d.1 ≡ durable_of c.shards
    → (d.0 ≡ ok tt → All OnDisk d.1)
    → DurableSafe c (synced w c d).1
unfolding report
synced-DurableSafe w c (ok u, ss) same h = inr (make_durable-IsSafe ss (h refl))
synced-DurableSafe w c (err e, ss) same h = inl same

-- A sync was due, or nothing has happened.
pub sync_step-DurableSafe :
    (w : Moment) (due : Bool) (c : Committer)
    → All InOrder c.shards
    → (sync_step w due c ≡ (true, c)) ⊎ ((due ≡ true) × DurableSafe c (sync_step w due c).1)
unfolding sync_step
sync_step-DurableSafe w false c v = inl refl
sync_step-DurableSafe w true c v =
    elim (Bool-cases (ltb (min_of (durable_of c.shards)) (max_of (committed_of c.shards)))) [
      | inl behind ↦
          let b =
            synced-DurableSafe w c (sync_shards c.shards) (durable_of-sync_shards c.shards)
              (sync_shards-OnDisk c.shards v) in
          inr (refl, rw (sync_step, behind) b)
      | inr none_behind ↦ inl (rw (sync_step, none_behind) refl)
    ]

abbrev pub TurnDurableSafe : Committer → Turn → Type 0
TurnDurableSafe c panicked = Unit
TurnDurableSafe c (next c') = DurableSafe c c'
TurnDurableSafe c (finished c') = DurableSafe c c'

pub drained-DurableSafe :
    (c c' : Committer) → durable_of c'.shards ≡ durable_of c.shards → DurableSafe c (drained c')
drained-DurableSafe c c' same = inl (durable_of-drained c'.shards ∙ same)

-- With a sync that was due there is no drain.
pub end_round-DurableSafe :
    (w : Moment) (p : Poll) (commit due : Bool) (c : Committer) (r : Bool × Committer)
    → (durable_of r.1.shards ≡ durable_of c.shards) ⊎ ((due ≡ true) × DurableSafe c r.1)
    → TurnDurableSafe c (end_round w p commit due r)
end_round-DurableSafe w p commit due c (false, c') (inl same) = inl same
end_round-DurableSafe w p commit due c (false, c') (inr b) = b.1
end_round-DurableSafe w p commit due c (true, c') (inl same) =
    if_intro (TurnDurableSafe c) (w.draining && not p.uncommitted && not p.unsynced) (λ e. inl same)
      (λ e.
        if_intro (TurnDurableSafe c) (not commit && not due) (λ e'. drained-DurableSafe c c' same)
          (λ e'. inl same))
end_round-DurableSafe w p commit due c (true, c') (inr b) =
    if_intro (TurnDurableSafe c) (w.draining && not p.uncommitted && not p.unsynced) (λ e. b.1)
      (λ e.
        if_intro (TurnDurableSafe c) (not commit && not due)
          (λ e'. absurd (drains commit due e' b.0)) (λ e'. b.1))
  where
    drains : (a b : Bool) → (not a && not b) ≡ true → b ≡ true → ⊥
    drains true b e f = cc
    drains false b e f = cc
