-- ===== src/Pipeline/Committer/Advance.antt =====
-- A round of the committer (logdb/src/pipeline/committer.rs) and its cursors: the commit, the sync and their reports.
use native.Mathlib.Nat.{le_refl}
use lv_logdb.Prelude.{
  ℕ, zero, suc, ◌+◌, ◌%◌, ◌^◌, ◌≤◌, ◌<◌, ◌≡◌, refl, ap, inl, inr, Bool, true, false, Option, ◌&&◌,
  none, some, Option-cases, List, [], ◌∷◌, map, get_elem?, get_or, set, ltb, if_intro, arith, Bytes,
  ok, err, All,
}
use lv_logdb.Pipeline.Flush.{FlushSignal, complete, complete_all}
use lv_logdb.Pipeline.Committer.{choose_batch_end}
use lv_logdb.Pipeline.Committer.Batch.{choose_batch_end-lt}
use lv_logdb.Pipeline.Committer.Round.{
  Committer, CommitShard, Moment, Turn, Commit, next, finished, panicked, retry, going,
  commit_panicked, drained, committed_at, make_durable, report, rolled, appended, advanced,
  commit_shard, committed_of,
}
use lv_logdb.Pipeline.Committer.Cursors.{
  IsShard, Grown, Backed, IsCommitter, Advanced, Grown-refl, Alike-drained, Alike-set,
  Alike-Advanced, Backed-Grown,
}
use lv_logdb.Storage.Segments.{SegmentManager, full, io}
use lv_logdb.Storage.Segments.Append.{append_batch, Outcome}
use lv_logdb.Storage.Segments.Roll.{Done}
use lv_logdb.Pipeline.Committer.Written.{Within, append_batch-Within}

set-Backed :
    (ds : List ℕ) (ss : List CommitShard) (i d : ℕ)
    → Backed ds ss
    → ((s : CommitShard) → get_elem? ss i ≡ some s → d ≤ s.durable)
    → Backed (set ds i d) ss
set-Backed [] ss i d b h = tt
set-Backed (x ∷ ds) [] zero d b h = tt
set-Backed (x ∷ ds) [] (suc i) d b h = tt
set-Backed (x ∷ ds) (s ∷ ss) zero d b h = (h s refl, b.1)
set-Backed (x ∷ ds) (s ∷ ss) (suc i) d b h = (b.0, set-Backed ds ss i d b.1 h)

complete_all-Backed :
    (f : FlushSignal) (i : ℕ) (ds : List ℕ) (ss : List CommitShard)
    → Backed f.completed ss
    → ((j : ℕ) (s : CommitShard) → get_elem? ss (i + j) ≡ some s → get_or ds j 0 ≤ s.durable)
    → Backed (complete_all f i ds).completed ss
unfolding complete_all complete
complete_all-Backed f i [] ss b h = b
complete_all-Backed f i (d ∷ ds) ss b h =
    let here : i + 0 ≡ i = omega arith in
    complete_all-Backed (complete f i d) (i + 1) ds ss
      (if_intro (λ (g : FlushSignal). Backed g.completed ss) (ltb (get_or f.completed i d) d)
        (λ e. set-Backed f.completed ss i d b (λ s e'. h 0 s (rw here e'))) (λ e. b))
      (λ j s e. let after : i + 1 + j ≡ i + suc j = omega arith in h (suc j) s (rw (← after) e))

Grown-make_durable : (ss : List CommitShard) → All IsShard ss → Grown ss (map make_durable ss)
Grown-make_durable [] v = tt
Grown-make_durable (s ∷ ss) (v, vs) = (le_refl s.committed, v.behind, Grown-make_durable ss vs)

make_durable-IsShard : (ss : List CommitShard) → All IsShard ss → All IsShard (map make_durable ss)
make_durable-IsShard [] v = tt
make_durable-IsShard (s ∷ ss) (v, vs) = (
  record { behind = le_refl s.committed; committed_is = v.committed_is; durable_is = refl },
  make_durable-IsShard ss vs,
)

make_durable-committed :
    (ss : List CommitShard) (j : ℕ) (s : CommitShard)
    → get_elem? (map make_durable ss) j ≡ some s
    → get_or (committed_of ss) j 0 ≤ s.durable
make_durable-committed [] j s e = absurd cc
make_durable-committed (t ∷ ts) zero s e =
    let same : make_durable t ≡ s = cc in rw (← same) (le_refl t.committed)
make_durable-committed (t ∷ ts) (suc j) s e = make_durable-committed ts j s e

pub report-Advanced : (c : Committer) → IsCommitter c → Advanced c (report c)
unfolding report
report-Advanced c i =
    let grown = Grown-make_durable c.shards i.shards_in in
    record {
      valid = record {
        shards_in = make_durable-IsShard c.shards i.shards_in;
        backed =
            complete_all-Backed c.flush 0 (committed_of c.shards) (map make_durable c.shards)
              (Backed-Grown c.flush.completed c.shards (map make_durable c.shards) grown i.backed)
              (λ j s e.
                let none_before : 0 + j ≡ j = omega arith in
                make_durable-committed c.shards j s (rw none_before at e));
      };
      grown = grown;
    }

Grown-set :
    (ss : List CommitShard) (si : ℕ) (s t : CommitShard)
    → get_elem? ss si ≡ some s
    → s.committed ≤ t.committed
    → s.durable ≤ t.durable
    → Grown ss (set ss si t)
Grown-set [] si s t e c d = tt
Grown-set (u ∷ us) zero s t e c d = let same : u ≡ s = cc in rw same (c, d, Grown-refl us)
Grown-set (u ∷ us) (suc si) s t e c d =
    (le_refl u.committed, le_refl u.durable, Grown-set us si s t e c d)

set-IsShard :
    (ss : List CommitShard) (si : ℕ) (t : CommitShard)
    → IsShard t
    → All IsShard ss
    → All IsShard (set ss si t)
set-IsShard [] si t v vs = tt
set-IsShard (u ∷ us) zero t v vs = (v, vs.1)
set-IsShard (u ∷ us) (suc si) t v vs = (vs.0, set-IsShard us si t v vs.1)

All-get_elem? :
    (ss : List CommitShard) (si : ℕ) (s : CommitShard)
    → get_elem? ss si ≡ some s
    → All IsShard ss
    → IsShard s
All-get_elem? [] si s e vs = absurd cc
All-get_elem? (u ∷ us) zero s e vs = let same : u ≡ s = cc in rw (← same) vs.0
All-get_elem? (u ∷ us) (suc si) s e vs = All-get_elem? us si s e vs.1

pub committed_at-get_elem? :
    (ss : List CommitShard) (si : ℕ) (s : CommitShard)
    → get_elem? ss si ≡ some s
    → committed_at ss si ≡ s.committed
committed_at-get_elem? [] si s e = absurd cc
committed_at-get_elem? (u ∷ us) zero s e =
    let same : u ≡ s = cc in ap (λ (x : CommitShard). x.committed) same
committed_at-get_elem? (u ∷ us) (suc si) s e = committed_at-get_elem? us si s e

abbrev pub CommitAdvanced : Committer → Commit → Type 0
CommitAdvanced c commit_panicked = Unit
CommitAdvanced c (retry c') = Advanced c c'
CommitAdvanced c (going c') = Advanced c c'

abbrev pub TurnAdvanced : Committer → Turn → Type 0
TurnAdvanced c panicked = Unit
TurnAdvanced c (next c') = Advanced c c'
TurnAdvanced c (finished c') = Advanced c c'

pub Advanced-refl : (c : Committer) → IsCommitter c → Advanced c c
Advanced-refl c i = record { valid = i; grown = Grown-refl c.shards }

pub drained-Advanced : (c : Committer) → IsCommitter c → Advanced c (drained c)
drained-Advanced c i = Alike-Advanced c (drained c) (Alike-drained c.shards) refl i

rolled-CommitAdvanced :
    (w : Moment) (c : Committer) (si : ℕ) (s : CommitShard) (d : Done SegmentManager)
    → get_elem? c.shards si ≡ some s
    → IsCommitter c
    → CommitAdvanced c (rolled w c si s d)
rolled-CommitAdvanced w c si s (ok u, m) e i =
    Alike-Advanced c _ (Alike-set c.shards si s m e) refl i
rolled-CommitAdvanced w c si s (err f, m) e i =
    Alike-Advanced c _ (Alike-set c.shards si s m e) refl i

advanced-Advanced :
    (w : Moment) (avail : ℕ) (c : Committer) (si : ℕ) (s : CommitShard) (m : SegmentManager)
    (last : ℕ)
    → get_elem? c.shards si ≡ some s
    → s.committed ≤ last
    → last + 1 < 2 ^ 64
    → IsCommitter c
    → Advanced c (advanced w avail c si s m last)
advanced-Advanced w avail c si s m last e up small i =
    let v = All-get_elem? c.shards si s e i.shards_in in
    let new = (last + 1) % 2 ^ 64 in
    let t : CommitShard = record {
      ring = record s.ring { committed_cursor = new };
      manager = m;
      committed = new;
      durable = s.durable;
    } in
    let grown = Grown-set c.shards si s t e (omega arith) (le_refl s.durable) in
    record {
      valid = record {
        shards_in =
            set-IsShard c.shards si t
              (record {
                behind = omega (arith, v.behind);
                committed_is = refl;
                durable_is = v.durable_is;
              })
              i.shards_in;
        backed = Backed-Grown c.flush.completed c.shards (set c.shards si t) grown i.backed;
      };
      grown = grown;
    }

module _ (crc32c : Bytes → ℕ) (encode_payload : Bytes → Option Bytes) (age : ℕ → Option ℕ)
    (shard_bits : ℕ) where
  appended-CommitAdvanced :
      (w : Moment) (avail : ℕ) (c : Committer) (si to : ℕ) (s : CommitShard) (o : Outcome ℕ)
      → get_elem? c.shards si ≡ some s
      → to + 1 < 2 ^ 64
      → Within crc32c encode_payload s.committed to o
      → IsCommitter c
      → CommitAdvanced c (appended crc32c encode_payload age shard_bits w avail c si s o)
  appended-CommitAdvanced w avail c si to s none e small h i = tt
  appended-CommitAdvanced w avail c si to s (some (ok last, m)) e small h i =
      advanced-Advanced w avail c si s m last e h.0 (omega (arith, h.1)) i
  appended-CommitAdvanced w avail c si to s (some (err full, m)) e small h i =
      rolled-CommitAdvanced w c si s _ e i
  appended-CommitAdvanced w avail c si to s (some (err io, m)) e small h i =
      Alike-Advanced c _ (Alike-set c.shards si s m e) refl i

  pub commit_shard-CommitAdvanced :
      (w : Moment) (avail : ℕ) (c : Committer) (si : ℕ)
      → committed_at c.shards si < avail
      → avail < 2 ^ 64
      → IsCommitter c
      → CommitAdvanced c (commit_shard crc32c encode_payload age shard_bits w avail c si)
  unfolding commit_shard
  commit_shard-CommitAdvanced w avail c si less small i =
      elim (Option-cases (get_elem? c.shards si)) [
        | inl e ↦ rw (commit_shard, e) tt
        | inr t ↦
            let s = t.0 in
            let e = t.1 in
            let at = committed_at-get_elem? c.shards si s e in
            let to = choose_batch_end s.committed avail (w.buf_cap si) in
            let within = choose_batch_end-lt s.committed avail (w.buf_cap si) (omega arith) small in
            rw (commit_shard, e)
              (appended-CommitAdvanced w avail c si to s
                (append_batch crc32c encode_payload s.ring s.committed to s.manager) e
                (omega (arith, within))
                (append_batch-Within crc32c encode_payload s.ring s.committed to s.manager within.0)
                i)
      ]

pub some_ready :
    (u : Bool) (committed avail : ℕ) (b : Bool)
    → (u && ltb committed avail && b) ≡ true
    → committed < avail
some_ready true committed avail b e = ground arith
some_ready false committed avail b e = absurd cc

pub small_at :
    (avails : List ℕ) (si : ℕ) → All (λ a. a < 2 ^ 64) avails → get_or avails si 0 < 2 ^ 64
small_at [] si h = omega arith
small_at (a ∷ avails) zero h = h.0
small_at (a ∷ avails) (suc si) h = small_at avails si h.1
