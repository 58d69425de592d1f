-- ===== src/Broker/Coordinator/Partition.antt =====
-- A rebalance (`recompute_sticky` of logdb-broker/src/coordinator.rs) gives each shard to one member, and each
-- member its fair share.
use lv_logdb.Prelude.{
  ℕ, suc, ◌+◌, ◌-◌, ◌≤◌, ◌<◌, ◌≡◌, refl, sym, ap, ◌∙◌, ◌⊎◌, inl, inr, Bool, true, false, Bool-cases,
  List, [], ◌∷◌, ◌++◌, length, length-append, ltb, ==→eq, ◌==◌, if◌then◌else◌, arith,
}
use lv_logdb.Storage.Segments.Roll.{sort_ids}
use lv_logdb.Broker.Coordinator.{
  range, contains, is_held, free_of, kept_shards, target, shed_one, shed_all, fill_one, fill_all,
  sort_all, rebalanced,
}
use lv_logdb.Broker.Coordinator.Shares.{shares-all, flat, AtMost, Fair, Fair-shares, AtMost-Fair}
use lv_logdb.Broker.Coordinator.Counting.{
  one_if, count, count-append, count-range, shed_one-Same, fill_one-Same, fill_one-none,
  count-sort_ids, length-sort_ids, length-ones,
}

contains-count :
    (s : ℕ) (xs : List ℕ)
    → ((contains s xs ≡ true) × (0 < count s xs)) ⊎ ((contains s xs ≡ false) × (count s xs ≡ 0))
unfolding contains count
contains-count s [] = inr (refl, refl)
contains-count s (x ∷ xs) = let ih = contains-count s xs in ground arith

count_if :
    (s x : ℕ) (b : Bool) (xs : List ℕ)
    → count s (if b then xs else x ∷ xs) ≡ (if b then count s xs else one_if (s == x) + count s xs)
unfolding count
count_if s x true xs = refl
count_if s x false xs = refl

pick :
    (held_x held_s same : Bool) (f c : ℕ)
    → (same ≡ true → held_x ≡ held_s)
    → f ≡ (if held_s then 0 else c)
    → (if held_x then f else one_if same + f) ≡ (if held_s then 0 else one_if same + c)
pick true true same f c h e = e
pick true false true f c h e = absurd (let z = h refl in cc)
pick true false false f c h e = omega (arith, e)
pick false true true f c h e = absurd (let z = h refl in cc)
pick false true false f c h e = omega (arith, e)
pick false false same f c h e = omega (arith, e)

module _ {ℓ} {K : Type ℓ} (dec : Discrete K) where
  shed_all-AtMost :
      (num n idx : ℕ) (a : List (K × List ℕ)) (free : List ℕ)
      → let r = shed_all dec num n idx a free in
        AtMost num n idx r.0
        × (length r.0 ≡ length a)
        × ((s : ℕ) → count s (flat r.0) + count s r.1 ≡ count s (flat a) + count s free)
  unfolding shed_all flat count
  shed_all-AtMost num n idx [] free = (tt, refl, λ s. refl)
  shed_all-AtMost num n idx (e ∷ es) free =
      let one = shed_one num n idx e.1 in
      let first = shed_one-Same num n idx e.1 in
      let rest = shed_all-AtMost num n (idx + 1) es (free ++ one.1) in
      (
        (first.1, rest.0),
        ap suc rest.1,
        λ s. omega (
          arith,
          first.0.counts s,
          rest.2 s,
          count-append s free one.1,
          count-append s e.1 (flat es),
          count-append s one.0 (flat (shed_all dec num n (idx + 1) es (free ++ one.1)).0),
        ),
      )

  fill_all-none : (num n idx : ℕ) (a : List (K × List ℕ)) → (fill_all dec num n idx a []).1 ≡ []
  unfolding fill_all
  fill_all-none num n idx [] = refl
  fill_all-none num n idx (e ∷ es) =
      let none_left = fill_one-none (target num n idx - length e.1) e.1 in
      rw none_left (fill_all-none num n (idx + 1) es)

  fill_all-AtMost :
      (num n idx : ℕ) (a : List (K × List ℕ)) (free : List ℕ)
      → AtMost num n idx a
      → let r = fill_all dec num n idx a free in
        AtMost num n idx r.0
        × (length r.0 ≡ length a)
        × ((s : ℕ) → count s (flat r.0) + count s r.1 ≡ count s (flat a) + count s free)
        × (Fair num n idx r.0 ⊎ (r.1 ≡ []))
  unfolding fill_all flat count
  fill_all-AtMost num n idx [] free h = (tt, refl, (λ s. refl), inl tt)
  fill_all-AtMost num n idx (e ∷ es) free (h, hs) =
      let lacking = target num n idx - length e.1 in
      let one = fill_one lacking e.1 free in
      let first = fill_one-Same lacking e.1 free in
      let rest = fill_all-AtMost num n (idx + 1) es one.1 hs in
      (
        (omega (arith, first.1), rest.0),
        ap suc rest.1,
        (λ s. omega (
          arith,
          first.0.counts s,
          rest.2 s,
          count-append s e.1 (flat es),
          count-append s one.0 (flat (fill_all dec num n (idx + 1) es one.1).0),
        )),
        elim first.2 [
          | inr empty ↦ inr (rw empty (fill_all-none num n (idx + 1) es))
          | inl full ↦ elim rest.3 [ inl fair ↦ inl (omega arith, fair) | inr empty ↦ inr empty ]
        ],
      )

  is_held-count :
      (s : ℕ) (a : List (K × List ℕ))
      → ((is_held dec s a ≡ true) × (0 < count s (flat a)))
        ⊎ ((is_held dec s a ≡ false) × (count s (flat a) ≡ 0))
  unfolding is_held flat count
  is_held-count s [] = inr (refl, refl)
  is_held-count s (e ∷ es) =
      let both = count-append s e.1 (flat es) in
      let here = contains-count s e.1 in let there = is_held-count s es in ground arith

  count-free_of :
      (s : ℕ) (a : List (K × List ℕ)) (ss : List ℕ)
      → count s (free_of dec a ss) ≡ (if is_held dec s a then 0 else count s ss)
  unfolding free_of count
  count-free_of s a [] = elim (Bool-cases (is_held dec s a)) [
    | inl e ↦ rw e refl
    | inr e ↦ rw e refl
  ]
  count-free_of s a (x ∷ xs) =
      count_if s x (is_held dec x a) (free_of dec a xs)
      ∙ pick (is_held dec x a) (is_held dec s a) (s == x) (count s (free_of dec a xs)) (count s xs)
          (λ e. ap (λ k. is_held dec k a) (sym (==→eq s x e))) (count-free_of s a xs)

  sort_all-same :
      (a : List (K × List ℕ)) (s : ℕ) → count s (flat (sort_all dec a)) ≡ count s (flat a)
  unfolding sort_all flat
  sort_all-same [] s = refl
  sort_all-same (e ∷ es) s = omega (
    arith,
    count-append s (sort_ids e.1) (flat (sort_all dec es)),
    count-append s e.1 (flat es),
    count-sort_ids s e.1,
    sort_all-same es s,
  )

  sort_all-Fair :
      (num n idx : ℕ) (a : List (K × List ℕ)) → Fair num n idx a → Fair num n idx (sort_all dec a)
  unfolding sort_all
  sort_all-Fair num n idx [] h = tt
  sort_all-Fair num n idx (e ∷ es) (h, hs) =
      (length-sort_ids e.1 ∙ h, sort_all-Fair num n (idx + 1) es hs)

  -- Each shard below `num` stands once among all members', no other stands there, and each member has
  -- its fair share: the quotient, and one more for the first ones of the remainder.
  pub record IsPartition (num : ℕ) (a : List (K × List ℕ)) : Type ℓ where
    pub owned : (s : ℕ) → count s (flat a) ≡ one_if (ltb s num)
    pub fair : Fair num (length a) 0 a

  filled-IsPartition :
      (num n : ℕ) (a : List (K × List ℕ)) (left : List ℕ)
      → length a ≡ n
      → 0 < n
      → AtMost num n 0 a
      → ((s : ℕ) → count s (flat a) + count s left ≡ one_if (ltb s num))
      → Fair num n 0 a ⊎ (left ≡ [])
      → ((s : ℕ) → count s (flat a) ≡ one_if (ltb s num)) × Fair num n 0 a
  unfolding count
  filled-IsPartition num n a left size pos most all done =
      let whole = length-ones num (flat a ++ left) (λ s. count-append s (flat a) left ∙ all s) in
      let joined = length-append (flat a) left in
      let sum = shares-all num n pos in
      let fair : Fair num n 0 a = elim done [
        | inl f ↦ f
        | inr empty ↦ AtMost-Fair num n 0 a most (rw size (omega (arith, ap length empty)))
      ] in
      let held : length (flat a) ≡ num = Fair-shares num n 0 a fair ∙ rw size sum in
      let none_left : length left ≡ 0 = omega arith in
      (λ s. omega (arith, all s, ap (count s) (no_elements left none_left)), fair)
    where
      no_elements : (xs : List ℕ) → length xs ≡ 0 → xs ≡ []
      no_elements [] e = refl
      no_elements (x ∷ xs) e = absurd (omega arith)

  length-sort_all : (a : List (K × List ℕ)) → length (sort_all dec a) ≡ length a
  unfolding sort_all
  length-sort_all [] = refl
  length-sort_all (e ∷ es) = ap suc (length-sort_all es)

  length-kept_shards :
      (old : List (K × List ℕ)) (members : List K)
      → length (kept_shards dec old members) ≡ length members
  unfolding kept_shards
  length-kept_shards old [] = refl
  length-kept_shards old (m ∷ ms) = ap suc (length-kept_shards old ms)

  -- A rebalance with at least one member, whose members held each shard below `num` at most once and
  -- no other before, gives each of these shards to one member and each member its fair share.
  pub rebalanced-IsPartition :
      (num : ℕ) (members : List K) (old : List (K × List ℕ))
      → 0 < length members
      → ((s : ℕ) → count s (flat (kept_shards dec old members)) ≤ one_if (ltb s num))
      → IsPartition num (rebalanced dec num members old)
  unfolding rebalanced
  rebalanced-IsPartition num members old pos once =
      let n = length members in
      let kept = kept_shards dec old members in
      let free = free_of dec kept (range num) in
      let shed = shed_all-AtMost num n 0 kept free in
      let shed_to = shed_all dec num n 0 kept free in
      let fill = fill_all-AtMost num n 0 shed_to.0 shed_to.1 shed.0 in
      let fill_to = fill_all dec num n 0 shed_to.0 shed_to.1 in
      let size : length fill_to.0 ≡ n = fill.1 ∙ shed.1 ∙ length-kept_shards old members in
      let start : (s : ℕ) → count s (flat kept) + count s free ≡ one_if (ltb s num) = (λ s.
        let f = count-free_of s kept (range num) in
        let r = count-range s num in
        let o = once s in let h = is_held-count s kept in ground arith) in
      let done =
        filled-IsPartition num n fill_to.0 fill_to.1 size pos fill.0
          (λ s. fill.2 s ∙ shed.2 s ∙ start s) fill.3 in
      record {
        owned = λ s. sort_all-same fill_to.0 s ∙ done.0 s;
        fair =
            let same = length-sort_all fill_to.0 ∙ size in
            rw same (sort_all-Fair num n 0 fill_to.0 done.1);
      }
