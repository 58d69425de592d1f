-- ===== src/Broker/Coordinator/Membership.antt =====
-- Joining and leaving (logdb-broker/src/coordinator.rs) keep each shard with one member.
use lv_logdb.Prelude.{
  ℕ, ◌+◌, ◌%◌, ◌/◌, ◌≤◌, ◌<◌, ◌≡◌, ◌≢◌, refl, sym, ap, subst, ◌∙◌, ◌⊎◌, inl, inr, Bool, false,
  Bool-cases, List, [], ◌∷◌, ◌++◌, append-nil, append_assoc, length, get_elem?, ==→eq,
  length-append, ltb, ◌==◌, if◌then◌else◌, if_intro, arith, ne→==-false, find, put, remove,
}
use lv_logdb.Broker.Coordinator.{
  GroupState, new_group, range, shards_of, is_member, kept_shards, rebalanced,
}
use lv_logdb.Broker.Coordinator.Counting.{one_if, count, count-range, length-ones}
use lv_logdb.Broker.Coordinator.Shares.{flat}
use lv_logdb.Broker.Coordinator.Partition.{IsPartition, rebalanced-IsPartition}
use lv_logdb.Broker.Coordinator.Group.{
  keys, place, deal, recompute_round_robin, recompute_sticky, next_generation, joined, join,
  without_member, left, leave, shard_offset, commit_offset,
}
use lv_logdb.Broker.Coordinator.Keys.{
  Unique, shards_of-here, kept_shards-keys, kept-joined, count-remove, keys-remove, Unique-without,
  Unique-end, keys-rebalanced,
}

module _ {ℓ} {K : Type ℓ} (dec : Discrete K) where
  -- There is one entry of shards for each member, in order, no member is in the group twice, and a
  -- group with members divides the shards among them.
  pub record IsGroup (g : GroupState dec) : Type ℓ where
    pub keyed : keys dec g.assignments ≡ g.members
    pub unique : Unique dec g.members
    pub shared : (g.members ≡ []) ⊎ IsPartition dec g.num_shards g.assignments

  put_own : (id : K) (v xs : List ℕ) → put dec id v ((id, xs) ∷ []) ≡ (id, v) ∷ []
  unfolding put
  put_own id v xs = ground (arith, λ (n : id ≢ id). n refl)

  -- All shards are dealt to the only member.
  deal-one :
      (id : K) (ss xs : List ℕ) → deal dec 1 (id ∷ []) ss ((id, xs) ∷ []) ≡ (id, xs ++ ss) ∷ []
  unfolding deal
  deal-one id [] xs = ap (λ t. (id, t) ∷ []) (sym (append-nil xs))
  deal-one id (s ∷ ss) xs =
      let one : s % 1 ≡ 0 = omega arith in
      ap (λ i. deal dec 1 (id ∷ []) ss (place dec (get_elem? (id ∷ []) i) s ((id, xs) ∷ []))) one
      ∙ ap (λ v. deal dec 1 (id ∷ []) ss (put dec id (v ++ (s ∷ [])) ((id, xs) ∷ [])))
          (shards_of-here dec (id, xs) [])
      ∙ ap (deal dec 1 (id ∷ []) ss) (put_own id (xs ++ (s ∷ [])) xs)
      ∙ deal-one id ss (xs ++ (s ∷ []))
      ∙ ap (λ t. (id, t) ∷ []) (append_assoc xs (s ∷ []) ss)

  deal-first : (id : K) (s : ℕ) (ss : List ℕ) → deal dec 1 (id ∷ []) (s ∷ ss) [] ≡ (id, s ∷ ss) ∷ []
  unfolding deal shards_of find put
  deal-first id s ss =
      let one : s % 1 ≡ 0 = omega arith in
      ap (λ i. deal dec 1 (id ∷ []) ss (place dec (get_elem? (id ∷ []) i) s [])) one
      ∙ deal-one id ss (s ∷ [])

  deal-all : (id : K) (ss : List ℕ) → 0 < length ss → deal dec 1 (id ∷ []) ss [] ≡ (id, ss) ∷ []
  deal-all id [] h = absurd (omega arith)
  deal-all id (s ∷ ss) h = deal-first id s ss

  -- The first member gets all shards.
  first-IsGroup :
      (g : GroupState dec) (id : K) (generation : ℕ) (changed : List K)
      → 0 < g.num_shards
      → IsGroup (record g {
        members = id ∷ [];
        generation = generation;
        assignments = recompute_round_robin dec g.num_shards (id ∷ []);
        last_changed = changed;
      })
  unfolding recompute_round_robin is_member flat count
  first-IsGroup g id generation changed pos =
      let num = g.num_shards in
      let size = length-ones num (range num) (λ s. count-range s num) in
      let all = deal-all id (range num) (omega arith) in
      let share : num / 1 + (if ltb 0 (num % 1) then 1 else 0) ≡ num = ground arith in
      let part : IsPartition dec num ((id, range num) ∷ []) = record {
        owned = λ s. ap (count s) (append-nil (range num)) ∙ count-range s num;
        fair = (size ∙ sym share, tt);
      } in
      record {
        keyed = ap (keys dec) all;
        unique = (refl, tt);
        shared = inr (subst (IsPartition dec num) (sym all) part);
      }

  -- Counts of what all hold are at most one.
  rebalanced-IsGroup :
      (g : GroupState dec) (members : List K) (old : List (K × List ℕ)) (generation : ℕ)
      (changed : List K)
      → Unique dec members
      → 0 < length members
      → ((s : ℕ) → count s (flat (kept_shards dec old members)) ≤ one_if (ltb s g.num_shards))
      → IsGroup (record g {
        members = members;
        generation = generation;
        assignments = rebalanced dec g.num_shards members old;
        last_changed = changed;
      })
  rebalanced-IsGroup g members old generation changed u pos once = record {
    keyed = keys-rebalanced dec g.num_shards members old;
    unique = u;
    shared = inr (rebalanced-IsPartition dec g.num_shards members old pos once);
  }

  held-at-most :
      (g : GroupState dec) (s : ℕ)
      → IsGroup g
      → count s (flat g.assignments) ≤ one_if (ltb s g.num_shards)
  unfolding flat count
  held-at-most g s i = elim i.shared [
    | inr p ↦ omega (arith, p.owned s)
    | inl empty ↦
        let none_held : (a : List (K × List ℕ)) → keys dec a ≡ [] → count s (flat a) ≡ 0 =
          no_entries s in
        omega (arith, none_held g.assignments (i.keyed ∙ empty))
  ]
    where
      no_entries : (s : ℕ) (a : List (K × List ℕ)) → keys dec a ≡ [] → count s (flat a) ≡ 0
      no_entries s [] e = refl
      no_entries s (x ∷ xs) e = absurd cc

  joined-IsGroup :
      (g : GroupState dec) (id : K)
      → 0 < g.num_shards
      → IsGroup g
      → is_member dec id g.members ≡ false
      → IsGroup (joined dec g id)
  unfolding joined recompute_sticky
  joined-IsGroup g id pos i new =
      let members = g.members ++ (id ∷ []) in
      let size = length-append g.members (id ∷ []) in
      elim (Bool-cases (length g.members == 0)) [
        | inl empty ↦
            let alone : members ≡ id ∷ [] =
              ap (λ t. t ++ (id ∷ [])) (no_elements g.members (==→eq _ 0 empty)) in
            rw (joined, empty)
              (subst
                (λ ms. IsGroup (record g {
                  members = ms;
                  generation = next_generation dec g.generation;
                  assignments = recompute_round_robin dec g.num_shards ms;
                  last_changed = ms;
                }))
                (sym alone) (first-IsGroup g id (next_generation dec g.generation) (id ∷ []) pos))
        | inr others ↦
            let some_there : (length members == 0) ≡ false =
              ne→==-false (length members) 0 (λ z. omega arith) in
            let u = subst (Unique dec) (sym i.keyed) i.unique in
            let absent = subst (λ ms. is_member dec id ms ≡ false) (sym i.keyed) new in
            let once : (s : ℕ)
                → count s (flat (kept_shards dec g.assignments members))
                  ≤ one_if (ltb s g.num_shards) =
              (λ s.
                let same =
                  subst
                    (λ ms.
                      count s (flat (kept_shards dec g.assignments (ms ++ (id ∷ []))))
                      ≡ count s (flat g.assignments))
                    i.keyed (kept-joined dec id g.assignments s u absent) in
                omega (arith, held-at-most g s i)) in
            rw (joined, others, recompute_sticky, some_there)
              (rebalanced-IsGroup g members g.assignments (next_generation dec g.generation) _
                (Unique-end dec id g.members new i.unique) (omega arith) once)
      ]
    where
      no_elements : (xs : List K) → length xs ≡ 0 → xs ≡ []
      no_elements [] e = refl
      no_elements (x ∷ xs) e = absurd (omega arith)

  left-IsGroup : (g : GroupState dec) (id : K) → IsGroup g → IsGroup (left dec g id)
  unfolding left recompute_sticky
  left-IsGroup g id i =
      let members = without_member dec id g.members in
      let old = remove dec id g.assignments in
      let u = Unique-without dec id g.members i.unique in
      elim (Bool-cases (length members == 0)) [
        | inl empty ↦
            let none_left = no_elements members (==→eq (length members) 0 empty) in
            rw (left, recompute_sticky, empty)
              (record { keyed = sym none_left; unique = u; shared = inl none_left })
        | inr others ↦
            let u' = subst (Unique dec) (sym i.keyed) i.unique in
            let keyed : keys dec old ≡ members =
              keys-remove dec id g.assignments u' ∙ ap (without_member dec id) i.keyed in
            let own : kept_shards dec old members ≡ old =
              subst (λ ms. kept_shards dec old ms ≡ old) keyed
                (kept_shards-keys dec old (subst (Unique dec) (sym keyed) u)) in
            let once : (s : ℕ)
                → count s (flat (kept_shards dec old members)) ≤ one_if (ltb s g.num_shards) =
              (λ s.
                let same = ap (λ t. count s (flat t)) own in
                omega (arith, held-at-most g s i, count-remove dec id s g.assignments)) in
            rw (left, recompute_sticky, others)
              (rebalanced-IsGroup g members old (next_generation dec g.generation) _ u
                (nonempty others) once)
      ]
    where
      no_elements : (xs : List K) → length xs ≡ 0 → xs ≡ []
      no_elements [] e = refl
      no_elements (x ∷ xs) e = absurd (omega arith)

      nonempty : {n : ℕ} → (n == 0) ≡ false → 0 < n
      nonempty e = ground arith

  -- In a group over at least one shard: joining, leaving and committing an offset keep one entry of
  -- shards for each member, no member twice, and, while there are members, each shard with exactly one
  -- of them and each member at its fair share. A new group is one.
  pub membership-IsGroup :
      (g : GroupState dec) (id : K) (shard seq num : ℕ)
      → 0 < g.num_shards
      → IsGroup g
      → IsGroup (join dec g id).1
        × IsGroup (leave dec g id).1
        × IsGroup (commit_offset dec g shard seq).1
        × IsGroup (new_group dec num)
  unfolding join leave commit_offset new_group
  membership-IsGroup g id shard seq num pos i = (
    if_intro IsGroup (is_member dec id g.members) (λ e. i) (joined-IsGroup g id pos i),
    if_intro (λ (r : Bool × GroupState dec). IsGroup r.1) (is_member dec id g.members)
        (λ e. left-IsGroup g id i) (λ e. i),
    if_intro (λ (r : Bool × GroupState dec). IsGroup r.1) (ltb (shard_offset dec g shard) seq)
        (λ e. record { keyed = i.keyed; unique = i.unique; shared = i.shared })
        (λ e. record { keyed = i.keyed; unique = i.unique; shared = i.shared }),
    record { keyed = refl; unique = tt; shared = inl refl },
  )
