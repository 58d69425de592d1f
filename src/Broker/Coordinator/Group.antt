-- ===== src/Broker/Coordinator/Group.antt =====
-- `GroupState` of logdb-broker/src/coordinator.rs: joining, leaving and the offsets of the shards. What
-- a call returns stands in front of the state that it leaves.
use lv_logdb.Prelude.{
  ℕ, ◌+◌, ◌-◌, ◌%◌, ◌^◌, min, Bool, true, false, Option, none, some, List, [], ◌∷◌, ◌++◌, map,
  length, get_elem?, ltb, ◌==◌, if◌then◌else◌, bytes_eq, find, put, remove, ℕ_discrete,
}
use lv_logdb.Broker.Coordinator.{GroupState, range, shards_of, is_member, rebalanced}

abbrev pub same_shards : Option (List ℕ) → Option (List ℕ) → Bool
same_shards none none = true
same_shards none (some ys) = false
same_shards (some xs) none = false
same_shards (some xs) (some ys) = bytes_eq xs ys

-- A missing offset is zero.
abbrev pub or_zero : Option ℕ → ℕ
or_zero none = 0
or_zero (some n) = n

module _ {ℓ} {K : Type ℓ} (dec : Discrete K) where
  abbrev pub keys : List (K × List ℕ) → List K
  keys a = map (λ e. e.0) a

  abbrev pub place : Option K → ℕ → List (K × List ℕ) → List (K × List ℕ)
  place none s a = a
  place (some owner) s a = put dec owner (shards_of dec owner a ++ (s ∷ [])) a

  -- The loop of `recompute_round_robin` over the shards.
  unfoldable pub deal : ℕ → List K → List ℕ → List (K × List ℕ) → List (K × List ℕ)
  deal n members [] a = a
  deal n members (s ∷ ss) a = deal n members ss (place (get_elem? members (s % n)) s a)

  unfoldable pub recompute_round_robin : ℕ → List K → List (K × List ℕ)
  recompute_round_robin num_shards members =
      if length members == 0 then [] else deal (length members) members (range num_shards) []

  -- Step 7: the members whose shards changed, then those that left.
  unfoldable pub changed_members : List (K × List ℕ) → List (K × List ℕ) → List K → List K
  changed_members old new [] = []
  changed_members old new (m ∷ ms) =
      let rest = changed_members old new ms in
      if same_shards (find dec m new) (find dec m old) then rest else m ∷ rest

  unfoldable pub departed : List K → List K → List K
  departed members [] = []
  departed members (k ∷ ks) =
      let rest = departed members ks in if is_member dec k members then rest else k ∷ rest

  -- The new assignments, and the set that is returned.
  unfoldable pub recompute_sticky : ℕ → List K → List (K × List ℕ) → List (K × List ℕ) × List K
  recompute_sticky num_shards members old =
      let new = rebalanced dec num_shards members old in
      if length members == 0
      then ([], keys old)
      else (new, changed_members old new members ++ departed members (keys old))

  -- `saturating_add(1)` of a `u32`
  abbrev pub next_generation : ℕ → ℕ
  next_generation generation = min (generation + 1) (2 ^ 32 - 1)

  -- The state after a new member has joined.
  unfoldable pub joined : GroupState dec → K → GroupState dec
  joined g id =
      let members = g.members ++ (id ∷ []) in
      let sticky = recompute_sticky g.num_shards members g.assignments in
      if length g.members == 0
      then record g {
        members = members;
        generation = next_generation g.generation;
        assignments = recompute_round_robin g.num_shards members;
        last_changed = members;
      }
      else record g {
        members = members;
        generation = next_generation g.generation;
        assignments = sticky.0;
        last_changed = sticky.1;
      }

  unfoldable pub join : GroupState dec → K → (ℕ × List ℕ) × GroupState dec
  join g id =
      let g' = if is_member dec id g.members then g else joined g id in
      ((g'.generation, shards_of dec id g'.assignments), g')

  -- `members.remove(pos)` at the first place where the id stands
  unfoldable pub without_member : K → List K → List K
  without_member id [] = []
  without_member id (m ∷ ms) = elim (dec id m) [ yes p ↦ ms | no p ↦ m ∷ without_member id ms ]

  unfoldable pub left : GroupState dec → K → GroupState dec
  left g id =
      let members = without_member id g.members in
      let sticky = recompute_sticky g.num_shards members (remove dec id g.assignments) in
      record g {
        members = members;
        generation = next_generation g.generation;
        assignments = sticky.0;
        last_changed = sticky.1;
      }

  unfoldable pub leave : GroupState dec → K → Bool × GroupState dec
  leave g id = if is_member dec id g.members then (true, left g id) else (false, g)

  unfoldable pub shard_offset : GroupState dec → ℕ → ℕ
  shard_offset g shard = or_zero (find ℕ_discrete shard g.shard_offsets)

  -- `entry(shard).or_insert(0)`, then the test on what it holds.
  unfoldable pub commit_offset : GroupState dec → ℕ → ℕ → Bool × GroupState dec
  commit_offset g shard seq =
      let held = shard_offset g shard in
      let entry = put ℕ_discrete shard held g.shard_offsets in
      if ltb held seq
      then (true, record g { shard_offsets = put ℕ_discrete shard seq entry })
      else (false, record g { shard_offsets = entry })
