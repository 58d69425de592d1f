-- ===== src/Broker/Coordinator.antt =====
-- logdb-broker/src/coordinator.rs: the members of consumer groups, the shards that each reads, and how
-- far each shard was read. A consumer id is a value of any type with decidable equality. Hash maps are
-- association lists; `assignments` keeps the order of `members`, one entry for each, so that the loops over
-- `members.iter().enumerate()` go over its entries.
pub mod Counting
pub mod Shares
pub mod Partition
pub mod Group
pub mod Keys
pub mod Membership
pub mod Offsets
pub mod Registry
pub mod Groups
use lv_logdb.Prelude.{
  ℕ, zero, suc, ◌+◌, ◌-◌, ◌*◌, ◌/◌, ◌%◌, ◌^◌, min, Bool, true, false, not, ◌&&◌, ◌||◌, Option, none,
  some, List, [], ◌∷◌, ◌++◌, map, length, ltb, leb, ◌==◌, if◌then◌else◌, find, put, remove,
  ℕ_discrete,
}
use lv_logdb.Storage.Segments.Roll.{sort_ids}

-- `v.contains(s)`
unfoldable pub contains : ℕ → List ℕ → Bool
contains s [] = false
contains s (x ∷ xs) = (s == x) || contains s xs

-- `(0..n)`
unfoldable pub range : ℕ → List ℕ
range zero = []
range (suc n) = range n ++ (n ∷ [])

-- `Vec::pop`
unfoldable pub pop : List ℕ → Option (List ℕ × ℕ)
pop [] = none
pop (x ∷ xs) = elim (pop xs) [ none ↦ some ([], x) | some r ↦ some (x ∷ r.0, r.1) ]

-- The `retain` of step 4: what stays, and `to_shed`, once `shed` shards of the surplus are shed.
unfoldable pub retain_own : ℕ → ℕ → ℕ → List ℕ → List ℕ → List ℕ × List ℕ
retain_own n idx surplus [] to_shed = ([], to_shed)
retain_own n idx surplus (s ∷ ss) to_shed = elim (leb surplus (length to_shed) || (s % n == idx)) [
  | true ↦ let rest = retain_own n idx surplus ss to_shed in (s ∷ rest.0, rest.1)
  | false ↦ retain_own n idx surplus ss (to_shed ++ (s ∷ []))
]

-- Its `while` loop, which pops as many shards as there are above the target.
unfoldable pub pop_own : ℕ → List ℕ → List ℕ → List ℕ × List ℕ
pop_own zero shards to_shed = (shards, to_shed)
pop_own (suc over) shards to_shed = elim (pop shards) [
  | none ↦ (shards, to_shed)
  | some r ↦ pop_own over r.0 (to_shed ++ (r.1 ∷ []))
]

-- `target_base + if idx < extra { 1 } else { 0 }`
abbrev pub target : ℕ → ℕ → ℕ → ℕ
target num_shards n idx = num_shards / n + (if ltb idx (num_shards % n) then 1 else 0)

-- Step 4 for one member: the shards that it keeps, and those that it sheds.
unfoldable pub shed_one : ℕ → ℕ → ℕ → List ℕ → List ℕ × List ℕ
shed_one num_shards n idx shards =
    let goal = target num_shards n idx in
    let kept = retain_own n idx (length shards - goal) shards [] in
    pop_own (length kept.0 - goal) kept.0 kept.1

-- The `while` loop of step 5, for the number of shards that the member lacks.
unfoldable pub fill_one : ℕ → List ℕ → List ℕ → List ℕ × List ℕ
fill_one zero shards free = (shards, free)
fill_one (suc lacking) shards free = elim (pop free) [
  | none ↦ (shards, free)
  | some r ↦ fill_one lacking (shards ++ (r.1 ∷ [])) r.0
]

module _ {ℓ} {K : Type ℓ} (dec : Discrete K) where
  abbrev pub Assignments : Type ℓ
  Assignments = List (K × List ℕ)

  pub record GroupState : Type ℓ where
    pub generation : ℕ
    pub members : List K
    pub assignments : Assignments
    pub shard_offsets : List (ℕ × ℕ)
    pub last_changed : List K
    pub num_shards : ℕ

  unfoldable pub new_group : ℕ → GroupState
  new_group num_shards = record {
    generation = 0;
    members = [];
    assignments = [];
    shard_offsets = [];
    last_changed = [];
    num_shards = num_shards;
  }

  -- `get(id).cloned().unwrap_or_default()`
  unfoldable pub shards_of : K → Assignments → List ℕ
  shards_of id a = elim (find dec id a) [ none ↦ [] | some v ↦ v ]

  unfoldable pub is_member : K → List K → Bool
  is_member id [] = false
  is_member id (m ∷ ms) = elim (dec id m) [ yes p ↦ true | no p ↦ is_member id ms ]

  -- Step 1.
  unfoldable pub kept_shards : Assignments → List K → Assignments
  kept_shards old members = map (λ id. (id, shards_of id old)) members

  -- Step 2.
  unfoldable pub is_held : ℕ → Assignments → Bool
  is_held s [] = false
  is_held s (e ∷ es) = contains s e.1 || is_held s es

  unfoldable pub free_of : Assignments → List ℕ → List ℕ
  free_of a [] = []
  free_of a (s ∷ ss) = let rest = free_of a ss in if is_held s a then rest else s ∷ rest

  -- The loop of step 4 from the member number `idx` on.
  unfoldable pub shed_all : ℕ → ℕ → ℕ → Assignments → List ℕ → Assignments × List ℕ
  shed_all num_shards n idx [] free = ([], free)
  shed_all num_shards n idx (e ∷ es) free =
      let one = shed_one num_shards n idx e.1 in
      let rest = shed_all num_shards n (idx + 1) es (free ++ one.1) in
      ((e.0, one.0) ∷ rest.0, rest.1)

  -- That of step 5.
  unfoldable pub fill_all : ℕ → ℕ → ℕ → Assignments → List ℕ → Assignments × List ℕ
  fill_all num_shards n idx [] free = ([], free)
  fill_all num_shards n idx (e ∷ es) free =
      let one = fill_one (target num_shards n idx - length e.1) e.1 free in
      let rest = fill_all num_shards n (idx + 1) es one.1 in ((e.0, one.0) ∷ rest.0, rest.1)

  -- Step 6.
  unfoldable pub sort_all : Assignments → Assignments
  sort_all a = map (λ e. (e.0, sort_ids e.1)) a

  -- Steps 1 to 6, for at least one member.
  unfoldable pub rebalanced : ℕ → List K → Assignments → Assignments
  rebalanced num_shards members old =
      let n = length members in
      let kept = kept_shards old members in
      let free = free_of kept (range num_shards) in
      let shed = shed_all num_shards n 0 kept free in
      sort_all (fill_all num_shards n 0 shed.0 shed.1).0
