-- ===== src/Broker/Coordinator/Groups.antt =====
-- The groups of a registry (logdb-broker/src/coordinator.rs) divide the shards among their members.
use lv_logdb.Prelude.{
  ℕ, ◌<◌, ◌≡◌, refl, sym, subst, ◌∙◌, inl, inr, Bool, some, Option-cases, if_intro, find, put,
  find-put_self, find-put_ne, length, ◌==◌, ltb,
}
use lv_logdb.Broker.Coordinator.{GroupState, new_group, is_member}
use lv_logdb.Broker.Coordinator.Group
use lv_logdb.Broker.Coordinator.Membership.{IsGroup, membership-IsGroup}
use lv_logdb.Broker.Coordinator.Registry.{
  CoordinatorRegistry, new_registry, entry, store, join, leave, commit_offset,
}

module _ {κ ℓ} {G : Type κ} {K : Type ℓ} (dec_key : Discrete G) (dec : Discrete K) where
  -- A group in order, over the shards of its registry.
  abbrev pub IsGroupOver : ℕ → GroupState dec → Type ℓ
  IsGroupOver num g = IsGroup dec g × (g.num_shards ≡ num)

  abbrev pub IsRegistry : CoordinatorRegistry dec_key dec → Type (κ ⊔ ℓ)
  IsRegistry r =
      (key : G) (g : GroupState dec)
      → find dec_key key r.groups ≡ some g
      → IsGroupOver r.num_shards g

  join-num_shards :
      (g : GroupState dec) (id : K) → (Group.join dec g id).1.num_shards ≡ g.num_shards
  unfolding Group.join Group.joined
  join-num_shards g id =
      if_intro (λ (s : GroupState dec). s.num_shards ≡ g.num_shards) (is_member dec id g.members)
        (λ e. refl)
        (λ e.
          if_intro (λ (s : GroupState dec). s.num_shards ≡ g.num_shards) (length g.members == 0)
            (λ e. refl) (λ e. refl))

  leave-num_shards :
      (g : GroupState dec) (id : K) → (Group.leave dec g id).1.num_shards ≡ g.num_shards
  unfolding Group.leave Group.left
  leave-num_shards g id =
      if_intro (λ (s : Bool × GroupState dec). s.1.num_shards ≡ g.num_shards)
        (is_member dec id g.members) (λ e. refl) (λ e. refl)

  commit_offset-num_shards :
      (g : GroupState dec) (shard seq : ℕ)
      → (Group.commit_offset dec g shard seq).1.num_shards ≡ g.num_shards
  unfolding Group.commit_offset
  commit_offset-num_shards g shard seq =
      if_intro (λ (s : Bool × GroupState dec). s.1.num_shards ≡ g.num_shards)
        (ltb (Group.shard_offset dec g shard) seq) (λ e. refl) (λ e. refl)

  new_group-IsGroupOver : (num : ℕ) → IsGroupOver num (new_group dec num)
  unfolding new_group
  new_group-IsGroupOver num = (record { keyed = refl; unique = tt; shared = inl refl }, refl)

  entry-IsGroupOver :
      (r : CoordinatorRegistry dec_key dec) (key : G)
      → IsRegistry r
      → IsGroupOver r.num_shards (entry dec_key dec r key)
  unfolding entry
  entry-IsGroupOver r key i = elim (Option-cases (find dec_key key r.groups)) [
    | inl e ↦ rw (entry, e) (new_group-IsGroupOver r.num_shards)
    | inr t ↦ let e = t.1 in rw (entry, e) (i key t.0 e)
  ]

  store-IsRegistry :
      (r : CoordinatorRegistry dec_key dec) (key : G) (g : GroupState dec)
      → IsRegistry r
      → IsGroupOver r.num_shards g
      → IsRegistry (store dec_key dec r key g)
  unfolding store
  store-IsRegistry r key g i h k f e = elim (dec_key k key) [
    | yes p ↦
        let at_key =
          subst (λ x. find dec_key x (put dec_key key g r.groups) ≡ some g) (sym p)
            (find-put_self dec_key key g r.groups) in
        let same : g ≡ f = cc in subst (IsGroupOver r.num_shards) same h
    | no n ↦ i k f (sym (find-put_ne dec_key k key g r.groups n) ∙ e)
  ]

  -- In a registry over at least one shard whose groups are over its shards, joining, leaving and committing an
  -- offset in a group, new ones included, keep this of every group: one entry of shards for each member, no
  -- member twice, and, while there are members, each shard with exactly one of them and each member at its
  -- fair share. It holds of a new registry.
  pub calls-IsRegistry :
      (r : CoordinatorRegistry dec_key dec) (key : G) (id : K) (shard seq num : ℕ)
      → 0 < r.num_shards
      → IsRegistry r
      → IsRegistry (join dec_key dec r key id).1
        × IsRegistry (leave dec_key dec r key id).1
        × IsRegistry (commit_offset dec_key dec r key shard seq).1
        × IsRegistry (new_registry dec_key dec num)
  unfolding join leave commit_offset new_registry find
  calls-IsRegistry r key id shard seq num pos i =
      let g = entry dec_key dec r key in
      let h = entry-IsGroupOver r key i in
      let kept = membership-IsGroup dec g id shard seq num (subst (λ n. 0 < n) (sym h.1) pos) h.0 in
      (
        store-IsRegistry r key _ i (kept.0, join-num_shards g id ∙ h.1),
        elim (Option-cases (find dec_key key r.groups)) [
          | inl e ↦ rw (leave, e) i
          | inr t ↦
              let e = t.1 in
              let here = i key t.0 e in
              let after =
                membership-IsGroup dec t.0 id shard seq num (subst (λ n. 0 < n) (sym here.1) pos)
                  here.0 in
              rw (leave, e) (store-IsRegistry r key _ i (after.1, leave-num_shards t.0 id ∙ here.1))
        ],
        store-IsRegistry r key _ i (kept.2, commit_offset-num_shards g shard seq ∙ h.1),
        λ k f e. absurd cc,
      )
