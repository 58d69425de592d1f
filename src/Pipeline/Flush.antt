-- ===== src/Pipeline/Flush.antt =====
-- `FlushSignal` of logdb/src/pipeline/signal.rs: what callers want durable, and what is durable, per
-- shard. Each operation is one step here: its compare-and-swap loops take the maximum of a cell.
pub mod Done
use lv_logdb.Prelude.{
  ℕ, zero, suc, ◌+◌, ◌-◌, ◌^◌, max, Bool, true, false, ◌&&◌, ◌||◌, List, [], ◌∷◌, replicate, length,
  get_or, set, ltb, leb, ◌==◌, ◌!=◌, if◌then◌else◌,
}

abbrev pub u64_max : ℕ
u64_max = 2 ^ 64 - 1

pub record FlushSignal : Type 0 where
  pub targets : List ℕ
  pub completed : List ℕ

unfoldable pub new : ℕ → FlushSignal
new num_shards = record {
  targets = replicate num_shards u64_max;
  completed = replicate num_shards 0;
}

abbrev pub raise_target : ℕ → ℕ → ℕ
raise_target cur t = if cur == u64_max then t else max cur t

-- The loop of `request` over the shards: it ends at the end of either list.
unfoldable pub raise_targets : List ℕ → List ℕ → List ℕ
raise_targets [] per_shard = []
raise_targets (cur ∷ targets) [] = cur ∷ targets
raise_targets (cur ∷ targets) (t ∷ per_shard) = raise_target cur t ∷ raise_targets targets per_shard

unfoldable pub request : FlushSignal → List ℕ → FlushSignal
request f per_shard = record f { targets = raise_targets f.targets per_shard }

-- `while cur < durable`; a shard out of range panics, and leaves the list as it is here.
unfoldable pub complete : FlushSignal → ℕ → ℕ → FlushSignal
complete f shard durable =
    let cur = get_or f.completed shard durable in
    if ltb cur durable then record f { completed = set f.completed shard durable } else f

-- `all` over the shards that the signal has.
unfoldable pub reached : List ℕ → List ℕ → Bool
reached completed [] = true
reached [] (t ∷ per_shard) = true
reached (c ∷ completed) (t ∷ per_shard) = leb t c && reached completed per_shard

unfoldable pub is_done : FlushSignal → List ℕ → Bool
is_done f per_shard = reached f.completed per_shard

unfoldable pub target : FlushSignal → ℕ → ℕ
target f shard = get_or f.targets shard u64_max

abbrev pub any_set : List ℕ → Bool
any_set [] = false
any_set (t ∷ targets) = (t != u64_max) || any_set targets

unfoldable pub any_pending : FlushSignal → Bool
any_pending f = any_set f.targets

-- What the committer reports after it has synced all shards (logdb/src/pipeline/committer.rs):
-- `complete` for shard after shard, from `shard` on.
unfoldable pub complete_all : FlushSignal → ℕ → List ℕ → FlushSignal
complete_all f shard [] = f
complete_all f shard (d ∷ durable) = complete_all (complete f shard d) (shard + 1) durable
