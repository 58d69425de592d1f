-- ===== src/Pipeline/Committer/Cursors.antt =====
-- The cursors of the committer (logdb/src/pipeline/committer.rs) over a round: what is durable is committed, both
-- only grow, and a flush is told of nothing that is not durable.
use native.Mathlib.Nat.{le_refl}
use lv_logdb.Prelude.{
  ℕ, zero, suc, ◌≤◌, ◌≡◌, refl, sym, ap, ◌∙◌, some, List, [], ◌∷◌, map, get_elem?, set, arith, ok,
  err, All,
}
use lv_logdb.Ring.{Ring}
use lv_logdb.Pipeline.Committer.Round.{Committer, CommitShard, drain_shard, sync_then, sync_shards}
use lv_logdb.Storage.Segments.{SegmentManager}
use lv_logdb.Storage.Segments.Roll.{Done}
use lv_logdb.Storage.Segments.Sync.{sync_all}

-- What is durable is committed, and the ring has the same cursors.
pub record IsShard (s : CommitShard) : Type 0 where
  pub behind : s.durable ≤ s.committed
  pub committed_is : s.ring.committed_cursor ≡ s.committed
  pub durable_is : s.ring.durable_cursor ≡ s.durable

-- The cursors of each shard have not gone back.
abbrev pub Grown : List CommitShard → List CommitShard → Type 0
Grown [] [] = Unit
Grown [] (t ∷ ts) = ⊥
Grown (s ∷ ss) [] = ⊥
Grown (s ∷ ss) (t ∷ ts) = (s.committed ≤ t.committed) × (s.durable ≤ t.durable) × Grown ss ts

-- A flush is told of durable records only.
abbrev pub Backed : List ℕ → List CommitShard → Type 0
Backed [] ss = Unit
Backed (d ∷ ds) [] = Unit
Backed (d ∷ ds) (s ∷ ss) = (d ≤ s.durable) × Backed ds ss

-- What holds of the committer between two rounds.
pub record IsCommitter (c : Committer) : Type 0 where
  pub shards_in : All IsShard c.shards
  pub backed : Backed c.flush.completed c.shards

pub record Advanced (c c' : Committer) : Type 0 where
  pub valid : IsCommitter c'
  pub grown : Grown c.shards c'.shards

pub Grown-refl : (ss : List CommitShard) → Grown ss ss
Grown-refl [] = tt
Grown-refl (s ∷ ss) = (le_refl s.committed, le_refl s.durable, Grown-refl ss)

Grown-trans : (ss ts us : List CommitShard) → Grown ss ts → Grown ts us → Grown ss us
Grown-trans [] [] [] g h = tt
Grown-trans [] [] (u ∷ us) g h = h
Grown-trans [] (t ∷ ts) us g h = elim g [ ]
Grown-trans (s ∷ ss) [] us g h = elim g [ ]
Grown-trans (s ∷ ss) (t ∷ ts) [] g h = h
Grown-trans (s ∷ ss) (t ∷ ts) (u ∷ us) g h =
    (omega (arith, g.0, h.0), omega (arith, g.1, h.1), Grown-trans ss ts us g.2 h.2)

pub Backed-Grown :
    (ds : List ℕ) (ss ts : List CommitShard) → Grown ss ts → Backed ds ss → Backed ds ts
Backed-Grown [] ss ts g b = tt
Backed-Grown (d ∷ ds) [] [] g b = tt
Backed-Grown (d ∷ ds) [] (t ∷ ts) g b = elim g [ ]
Backed-Grown (d ∷ ds) (s ∷ ss) [] g b = tt
Backed-Grown (d ∷ ds) (s ∷ ss) (t ∷ ts) g b =
    (omega (arith, b.0, g.1), Backed-Grown ds ss ts g.2 b.1)

-- New managers leave the cursors alone.
abbrev pub Alike : List CommitShard → List CommitShard → Type 0
Alike [] [] = Unit
Alike [] (t ∷ ts) = ⊥
Alike (s ∷ ss) [] = ⊥
Alike (s ∷ ss) (t ∷ ts) =
    (t.ring ≡ s.ring) × (t.committed ≡ s.committed) × (t.durable ≡ s.durable) × Alike ss ts

pub Alike-refl : (ss : List CommitShard) → Alike ss ss
Alike-refl [] = tt
Alike-refl (s ∷ ss) = (refl, refl, refl, Alike-refl ss)

Alike-Grown : (ss ts : List CommitShard) → Alike ss ts → Grown ss ts
Alike-Grown [] [] a = tt
Alike-Grown [] (t ∷ ts) a = a
Alike-Grown (s ∷ ss) [] a = a
Alike-Grown (s ∷ ss) (t ∷ ts) a = (omega (arith, a.1), omega (arith, a.2), Alike-Grown ss ts a.3)

Alike-IsShard : (ss ts : List CommitShard) → Alike ss ts → All IsShard ss → All IsShard ts
Alike-IsShard [] [] a v = tt
Alike-IsShard [] (t ∷ ts) a v = elim a [ ]
Alike-IsShard (s ∷ ss) [] a v = tt
Alike-IsShard (s ∷ ss) (t ∷ ts) (r, c, d, rest) (v, vs) = (
  record {
    behind = omega (arith, v.behind, c, d);
    committed_is = ap (λ (x : Ring). x.committed_cursor) r ∙ v.committed_is ∙ sym c;
    durable_is = ap (λ (x : Ring). x.durable_cursor) r ∙ v.durable_is ∙ sym d;
  },
  Alike-IsShard ss ts rest vs,
)

pub Alike-drained : (ss : List CommitShard) → Alike ss (map drain_shard ss)
Alike-drained [] = tt
Alike-drained (s ∷ ss) = (refl, refl, refl, Alike-drained ss)

pub Alike-sync_shards : (ss : List CommitShard) → Alike ss (sync_shards ss).1
unfolding sync_shards
Alike-sync_shards [] = tt
Alike-sync_shards (s ∷ ss) = each s ss (sync_all s.manager) (sync_shards ss) (Alike-sync_shards ss)
  where
    each :
        (s : CommitShard) (ss : List CommitShard) (m : Done SegmentManager)
        (rest : Done (List CommitShard))
        → Alike ss rest.1
        → Alike (s ∷ ss) (sync_then s ss m rest).1
    each s ss (err e, m) rest a = (refl, refl, refl, Alike-refl ss)
    each s ss (ok u, m) rest a = (refl, refl, refl, a)

pub Alike-set :
    (ss : List CommitShard) (si : ℕ) (s : CommitShard) (m : SegmentManager)
    → get_elem? ss si ≡ some s
    → Alike ss (set ss si (record s { manager = m }))
Alike-set [] si s m e = tt
Alike-set (t ∷ ts) zero s m e =
    let same : t ≡ s = cc in
    (
      ap (λ (x : CommitShard). x.ring) (sym same),
      ap (λ (x : CommitShard). x.committed) (sym same),
      ap (λ (x : CommitShard). x.durable) (sym same),
      Alike-refl ts,
    )
Alike-set (t ∷ ts) (suc si) s m e = (refl, refl, refl, Alike-set ts si s m e)

-- A committer whose shards have new managers.
pub Alike-Advanced :
    (c c' : Committer)
    → Alike c.shards c'.shards
    → c'.flush.completed ≡ c.flush.completed
    → IsCommitter c
    → Advanced c c'
Alike-Advanced c c' a f i = record {
  valid = record {
    shards_in = Alike-IsShard c.shards c'.shards a i.shards_in;
    backed = rw f (
        Backed-Grown c.flush.completed c.shards c'.shards (Alike-Grown c.shards c'.shards a)
          i.backed);
  };
  grown = Alike-Grown c.shards c'.shards a;
}

pub Advanced-trans : (a b c : Committer) → Advanced a b → Advanced b c → Advanced a c
Advanced-trans a b c g h = record {
  valid = h.valid;
  grown = Grown-trans a.shards b.shards c.shards g.grown h.grown;
}
