-- ===== src/Tests/Broker.antt =====
-- The groups of consumers (logdb-broker/src/coordinator.rs) at concrete inputs: consumers 7 and 8 and four shards.
use lv_logdb.Prelude.{ℕ, ◌≤◌, ◌<◌, ◌≡◌, refl, ap, List, [], ◌∷◌, ltb, arith, ℕ_discrete, find}
use lv_logdb.Broker.Coordinator.{
  Assignments, range, shards_of, kept_shards, rebalanced, free_of, is_held, contains, shed_all,
  shed_one, retain_own, pop_own, pop, fill_all, fill_one, sort_all,
}
use lv_logdb.Storage.Segments.Roll.{insert_id, sort_ids}
use lv_logdb.Broker.Coordinator.Counting.{one_if, count, count-range}
use lv_logdb.Broker.Coordinator.Shares.{flat}
use lv_logdb.Broker.Coordinator.Partition.{IsPartition, rebalanced-IsPartition}
use lv_logdb.Broker.Coordinator.Registry.{
  CoordinatorRegistry, new_registry, store, join, leave, commit_offset,
}
use lv_logdb.Broker.Coordinator.Groups.{IsRegistry, calls-IsRegistry}

abbrev both : List ℕ
both = 7 ∷ 8 ∷ []

abbrev all_to_one : Assignments ℕ_discrete
all_to_one = (7, 0 ∷ 1 ∷ 2 ∷ 3 ∷ []) ∷ []

all_to_one-once :
    (s : ℕ) → count s (flat (kept_shards ℕ_discrete all_to_one both)) ≤ one_if (ltb s 4)
unfolding flat kept_shards shards_of find range ℕ_discrete
all_to_one-once s = omega (arith, ap (count s) held, count-range s 4)
  where
    held : flat (kept_shards ℕ_discrete all_to_one both) ≡ range 4
    held = refl

rebalanced-IsPartition_example : IsPartition ℕ_discrete 4 (rebalanced ℕ_discrete 4 both all_to_one)
rebalanced-IsPartition_example =
    rebalanced-IsPartition ℕ_discrete 4 both all_to_one (omega arith) all_to_one-once

abbrev empty_registry : CoordinatorRegistry ℕ_discrete ℕ_discrete
empty_registry = new_registry ℕ_discrete ℕ_discrete 4

-- Consumer 7 is the only member of group 1.
abbrev one_member : CoordinatorRegistry ℕ_discrete ℕ_discrete
one_member = (join ℕ_discrete ℕ_discrete empty_registry 1 7).1

empty-IsRegistry : IsRegistry ℕ_discrete ℕ_discrete empty_registry
unfolding new_registry find
empty-IsRegistry k g e = absurd cc

four_shards : 0 < empty_registry.num_shards
unfolding new_registry
four_shards = omega arith

four_shards_joined : 0 < one_member.num_shards
unfolding join store new_registry
four_shards_joined = omega arith

one_member-IsRegistry : IsRegistry ℕ_discrete ℕ_discrete one_member
one_member-IsRegistry =
    (calls-IsRegistry ℕ_discrete ℕ_discrete empty_registry 1 7 0 0 4 four_shards empty-IsRegistry).0

calls-IsRegistry_example :
    IsRegistry ℕ_discrete ℕ_discrete (join ℕ_discrete ℕ_discrete one_member 1 8).1
    × IsRegistry ℕ_discrete ℕ_discrete (leave ℕ_discrete ℕ_discrete one_member 1 8).1
    × IsRegistry ℕ_discrete ℕ_discrete (commit_offset ℕ_discrete ℕ_discrete one_member 1 2 9).1
    × IsRegistry ℕ_discrete ℕ_discrete (new_registry ℕ_discrete ℕ_discrete 4)
calls-IsRegistry_example =
    calls-IsRegistry ℕ_discrete ℕ_discrete one_member 1 8 2 9 4 four_shards_joined
      one_member-IsRegistry

-- A third member takes shard 3 from consumer 8, where dealing in turn would give it to consumer 7.
third_member :
    rebalanced ℕ_discrete 4 (7 ∷ 8 ∷ 9 ∷ []) ((7, 0 ∷ 2 ∷ []) ∷ (8, 1 ∷ 3 ∷ []) ∷ [])
    ≡ (7, 0 ∷ 2 ∷ []) ∷ (8, 1 ∷ []) ∷ (9, 3 ∷ []) ∷ []
unfolding rebalanced kept_shards shards_of find free_of is_held contains range shed_all shed_one
    retain_own pop_own pop fill_all fill_one sort_all sort_ids insert_id ℕ_discrete
third_member = refl
