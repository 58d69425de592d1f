-- ===== src/Broker/Coordinator/Registry.antt =====
-- `CoordinatorRegistry` of logdb-broker/src/coordinator.rs: the groups by key. A `GroupKey` is a value of
-- any type with decidable equality. The write lock makes each call one step.
use lv_logdb.Prelude.{
  ℕ, ◌≡◌, ◌≢◌, refl, sym, ap, ◌∙◌, inl, inr, max, Bool, false, Option, none, some, Option-cases,
  List, [], map, ltb, find, put, find-put_self, find-put_ne,
}
use lv_logdb.Broker.Coordinator.{GroupState, new_group, shards_of}
use lv_logdb.Broker.Coordinator.Group
use lv_logdb.Broker.Coordinator.Offsets.{commit_offset-max}

module _ {κ ℓ} {G : Type κ} {K : Type ℓ} (dec_key : Discrete G) (dec : Discrete K) where
  pub record CoordinatorRegistry : Type (κ ⊔ ℓ) where
    pub num_shards : ℕ
    pub groups : List (G × GroupState dec)

  pub record GroupSnapshot : Type ℓ where
    pub generation : ℕ
    pub members : List (K × List ℕ)

  unfoldable pub new_registry : ℕ → CoordinatorRegistry
  new_registry num_shards = record { num_shards = num_shards; groups = [] }

  -- `groups.entry(key).or_insert_with(…)`
  unfoldable pub entry : CoordinatorRegistry → G → GroupState dec
  entry r key = elim (find dec_key key r.groups) [ none ↦ new_group dec r.num_shards | some g ↦ g ]

  unfoldable pub store : CoordinatorRegistry → G → GroupState dec → CoordinatorRegistry
  store r key g = record r { groups = put dec_key key g r.groups }

  unfoldable pub join : CoordinatorRegistry → G → K → (ℕ × List ℕ) × CoordinatorRegistry
  join r key id = let g = Group.join dec (entry r key) id in (g.0, store r key g.1)

  unfoldable pub leave : CoordinatorRegistry → G → K → Bool × CoordinatorRegistry
  leave r key id = elim (find dec_key key r.groups) [
    | none ↦ (false, r)
    | some g ↦ let g' = Group.leave dec g id in (g'.0, store r key g'.1)
  ]

  unfoldable pub last_changed : CoordinatorRegistry → G → List K
  last_changed r key = elim (find dec_key key r.groups) [ none ↦ [] | some g ↦ g.last_changed ]

  unfoldable pub group_snapshot : CoordinatorRegistry → G → Option GroupSnapshot
  group_snapshot r key = elim (find dec_key key r.groups) [
    | none ↦ none
    | some g ↦ some (record {
      generation = g.generation;
      members = map (λ id. (id, shards_of dec id g.assignments)) g.members;
    })
  ]

  unfoldable pub commit_offset : CoordinatorRegistry → G → ℕ → ℕ → Bool × CoordinatorRegistry
  commit_offset r key shard seq =
      let g = Group.commit_offset dec (entry r key) shard seq in (g.0, store r key g.1)

  unfoldable pub shard_offset : CoordinatorRegistry → G → ℕ → ℕ
  shard_offset r key shard = elim (find dec_key key r.groups) [
    | none ↦ 0
    | some g ↦ Group.shard_offset dec g shard
  ]

  -- An unknown group has the offsets of a new one.
  shard_offset-entry :
      (r : CoordinatorRegistry) (key : G) (shard : ℕ)
      → shard_offset r key shard ≡ Group.shard_offset dec (entry r key) shard
  unfolding shard_offset entry Group.shard_offset new_group find
  shard_offset-entry r key shard = elim (Option-cases (find dec_key key r.groups)) [
    | inl e ↦ rw (shard_offset, entry, e) refl
    | inr t ↦ let e = t.1 in rw (shard_offset, entry, e) refl
  ]

  shard_offset-store :
      (r : CoordinatorRegistry) (key : G) (g : GroupState dec) (shard : ℕ)
      → shard_offset (store r key g) key shard ≡ Group.shard_offset dec g shard
  unfolding shard_offset store
  shard_offset-store r key g shard =
      let e = find-put_self dec_key key g r.groups in rw (shard_offset, store, e) refl

  shard_offset-store_ne :
      (r : CoordinatorRegistry) (key other : G) (g : GroupState dec) (shard : ℕ)
      → other ≢ key
      → shard_offset (store r key g) other shard ≡ shard_offset r other shard
  unfolding shard_offset store
  shard_offset-store_ne r key other g shard n =
      let e = find-put_ne dec_key other key g r.groups n in rw (shard_offset, e) refl

  -- Committing an offset sets the offset of the shard in its group to the greater of the two, says
  -- whether it was behind the new one, and changes neither the offset of another shard nor of any shard
  -- in another group.
  commit_offset-apart :
      (r : CoordinatorRegistry) (key other_key : G) (shard other seq : ℕ)
      → other ≢ shard
      → other_key ≢ key
      → let done = commit_offset r key shard seq in
        (shard_offset done.1 key shard ≡ max (shard_offset r key shard) seq)
        × (done.0 ≡ ltb (shard_offset r key shard) seq)
        × (shard_offset done.1 key other ≡ shard_offset r key other)
        × ((s : ℕ) → shard_offset done.1 other_key s ≡ shard_offset r other_key s)
  unfolding commit_offset
  commit_offset-apart r key other_key shard other seq n m =
      let g = Group.commit_offset dec (entry r key) shard seq in
      let own = commit_offset-max dec (entry r key) shard seq other n in
      let before = shard_offset-entry r key shard in
      (
        shard_offset-store r key g.1 shard ∙ own.0 ∙ ap (λ v. max v seq) (sym before),
        own.1 ∙ ap (λ v. ltb v seq) (sym before),
        shard_offset-store r key g.1 other ∙ own.2 ∙ sym (shard_offset-entry r key other),
        λ s. shard_offset-store_ne r key other_key g.1 s m,
      )
