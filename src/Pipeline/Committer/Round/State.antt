-- ===== src/Pipeline/Committer/Round/State.antt =====
-- logdb/src/pipeline/committer.rs: the state of `run_committer`, what a round sees of it, and the rounds that find
-- nothing to do.
use lv_logdb.Prelude.{
  ℕ, zero, suc, ◌+◌, ◌%◌, min, max, Bool, true, false, not, ◌&&◌, ◌||◌, Option, none, some, List,
  [], ◌∷◌, map, length, get_or, ltb, leb, if◌then◌else◌,
}
use lv_logdb.Ring.{Ring}
use lv_logdb.Pipeline.Flush.{FlushSignal, target, any_pending}
use lv_logdb.Pipeline.Committer.{available_hi}
use lv_logdb.Storage.Segments.{SegmentManager}
use lv_logdb.Storage.Segments.Sync.{drain_pending_fsyncs}
use lv_logdb.Pipeline.Committer.Round.Health.{HealthState}

pub data DurabilityMode : Type 0 where
  sync batch async : DurabilityMode

pub record CommitTrigger : Type 0 where
  pub bytes : ℕ
  pub records : ℕ
  pub interval : ℕ
  pub durability : DurabilityMode

pub record CommitShard : Type 0 where
  pub ring : Ring
  pub manager : SegmentManager
  pub committed : ℕ
  pub durable : ℕ

pub record Committer : Type 0 where
  pub shards : List CommitShard
  pub flush : FlushSignal
  pub health : HealthState
  pub pending_since : Option ℕ
  pub current_shard : ℕ

-- `enospc` tells whether an I/O error of the round says that the disk is full; `buf_cap` is the capacity of
-- the write buffer of a shard's manager.
pub record Moment : Type 0 where
  pub now : ℕ
  pub draining : Bool
  pub checkpoint : ℕ
  pub enospc : Bool
  pub buf_cap : ℕ → ℕ

-- How a round ends: with `continue` or at its end, with `return`, or with a panic of `append_batch`.
pub data Turn : Type 0 where
  next : Committer → Turn
  finished : Committer → Turn
  panicked : Turn

-- `available_hi` of all shards; `none` is a lack of fuel.
unfoldable pub poll_rings : ℕ → List CommitShard → Option (List ℕ)
poll_rings fuel [] = some []
poll_rings fuel (s ∷ ss) = elim (available_hi fuel s.ring s.committed) [
  | none ↦ none
  | some avail ↦ elim (poll_rings fuel ss) [ none ↦ none | some avails ↦ some (avail ∷ avails) ]
]

unfoldable pub any_uncommitted : List ℕ → List CommitShard → Bool
any_uncommitted [] ss = false
any_uncommitted (a ∷ avails) [] = false
any_uncommitted (a ∷ avails) (s ∷ ss) = ltb s.committed a || any_uncommitted avails ss

unfoldable pub any_unsynced : List CommitShard → Bool
any_unsynced [] = false
any_unsynced (s ∷ ss) = ltb s.durable s.committed || any_unsynced ss

-- Whether a cursor is below what the flush wants of its shard, from the shard `i` on.
unfoldable pub any_below : (CommitShard → ℕ) → FlushSignal → ℕ → List CommitShard → Bool
any_below cursor f i [] = false
any_below cursor f i (s ∷ ss) = ltb (cursor s) (target f i) || any_below cursor f (i + 1) ss

-- `iter().min().unwrap_or(&0)`
abbrev pub min_of : List ℕ → ℕ
min_of [] = 0
min_of (n ∷ []) = n
min_of (n ∷ m ∷ ns) = min n (min_of (m ∷ ns))

abbrev pub max_of : List ℕ → ℕ
max_of [] = 0
max_of (n ∷ ns) = max n (max_of ns)

abbrev pub committed_of : List CommitShard → List ℕ
committed_of ss = map (λ s. s.committed) ss

abbrev pub durable_of : List CommitShard → List ℕ
durable_of ss = map (λ s. s.durable) ss

-- What the round has found before it acts.
pub record Poll : Type 0 where
  pub uncommitted : Bool
  pub unsynced : Bool
  pub commit_for_flush : Bool
  pub sync_for_flush : Bool

abbrev pub poll : List ℕ → Committer → Poll
poll avails c = record {
  uncommitted = any_uncommitted avails c.shards;
  unsynced = any_unsynced c.shards;
  commit_for_flush = any_pending c.flush && any_below (λ s. s.committed) c.flush 0 c.shards;
  sync_for_flush = any_pending c.flush && any_below (λ s. s.durable) c.flush 0 c.shards;
}

abbrev pub fully_idle : Poll → Bool
fully_idle p = not p.uncommitted && not p.unsynced && not p.commit_for_flush && not p.sync_for_flush

abbrev pub all_durable : List CommitShard → Bool
all_durable ss = leb (min_of (committed_of ss)) (min_of (durable_of ss))

-- `for m in seg_mgrs.iter_mut() { m.drain_pending_fsyncs(); }`
abbrev pub drain_shard : CommitShard → CommitShard
drain_shard s = record s { manager = drain_pending_fsyncs s.manager }

abbrev pub drained : Committer → Committer
drained c = record c { shards = map drain_shard c.shards }

abbrev pub stop_or_drain : Moment → Committer → Turn
stop_or_drain w c = if w.draining && all_durable c.shards then finished c else next (drained c)

-- The same, where the pending time is forgotten before the drain.
abbrev pub idle : Moment → Committer → Turn
idle w c =
    if w.draining && all_durable c.shards
    then finished c
    else next (drained (record c { pending_since = none }))

abbrev pub committed_at : List CommitShard → ℕ → ℕ
committed_at ss si = get_or (committed_of ss) si 0

abbrev pub durable_at : List CommitShard → ℕ → ℕ
durable_at ss si = get_or (durable_of ss) si 0

-- The loop that chooses a shard, for `n` more tries: the next `current_shard`, and the choice.
unfoldable pub choose_shard : ℕ → List ℕ → List CommitShard → ℕ → ℕ × Option ℕ
choose_shard zero avails ss current = (current, none)
choose_shard (suc n) avails ss current =
    elim (ltb (committed_at ss current) (get_or avails current 0)) [
      | true ↦ ((current + 1) % length ss, some current)
      | false ↦ choose_shard n avails ss ((current + 1) % length ss)
    ]
