-- ===== src/Broker/Coordinator/Counting.antt =====
-- How often a shard stands in a list, and that the steps of a rebalance
-- (logdb-broker/src/coordinator.rs) neither lose nor double one.
use lv_logdb.Prelude.{
  ℕ, zero, suc, ◌+◌, ◌-◌, ◌%◌, ◌≤◌, ◌<◌, ◌≡◌, refl, sym, ap, subst, ◌∙◌, ◌⊎◌, inl, inr, Bool, ◌||◌,
  Option, none, some, Option-cases, Bool-cases, List, [], ◌∷◌, ◌++◌, length, length-append, leb,
  ltb, ◌==◌, ==-refl, ltb→lt, if◌then◌else◌, arith,
}
use lv_logdb.Storage.Segments.Roll.{insert_id, sort_ids}
use lv_logdb.Broker.Coordinator.{range, pop, retain_own, pop_own, shed_one, fill_one, target}

abbrev pub one_if : Bool → ℕ
one_if b = if b then 1 else 0

unfoldable pub count : ℕ → List ℕ → ℕ
count s [] = 0
count s (x ∷ xs) = one_if (s == x) + count s xs

pub count-append : (s : ℕ) (xs ys : List ℕ) → count s (xs ++ ys) ≡ count s xs + count s ys
unfolding count
count-append s [] ys = omega arith
count-append s (x ∷ xs) ys = omega (arith, count-append s xs ys)

count-end : (s x : ℕ) (xs : List ℕ) → count s (xs ++ (x ∷ [])) ≡ count s xs + one_if (s == x)
unfolding count
count-end s x xs = omega (arith, count-append s xs (x ∷ []))

length-end : (x : ℕ) (xs : List ℕ) → length (xs ++ (x ∷ [])) ≡ suc (length xs)
length-end x xs = omega (arith, length-append xs (x ∷ []))

pub count-range : (s n : ℕ) → count s (range n) ≡ one_if (ltb s n)
unfolding range count
count-range s zero = ground arith
count-range s (suc n) = let e = count-end s n (range n) in let ih = count-range s n in ground arith

-- Popping takes the last one; nothing comes of an empty list.
abbrev pub Popped : List ℕ → Option (List ℕ × ℕ) → Type 0
Popped xs none = xs ≡ []
Popped xs (some r) = xs ≡ r.0 ++ (r.1 ∷ [])

pub pop-Popped : (xs : List ℕ) → Popped xs (pop xs)
unfolding pop
pop-Popped [] = refl
pop-Popped (x ∷ xs) = last (pop xs) (pop-Popped xs)
  where
    last :
        (o : Option (List ℕ × ℕ))
        → Popped xs o
        → Popped (x ∷ xs) (elim o [ none ↦ some ([], x) | some r ↦ some (x ∷ r.0, r.1) ])
    last none e = ap (λ t. x ∷ t) e
    last (some r) e = ap (λ t. x ∷ t) e

-- Two lists hold together what two others hold.
pub record Same (xs ys xs' ys' : List ℕ) : Type 0 where
  pub counts : (s : ℕ) → count s xs' + count s ys' ≡ count s xs + count s ys

pub retain_own-Same :
    (n idx surplus : ℕ) (xs shed : List ℕ)
    → let r = retain_own n idx surplus xs shed in Same xs shed r.0 r.1
unfolding retain_own count
retain_own-Same n idx surplus [] shed = record { counts = λ s. refl }
retain_own-Same n idx surplus (x ∷ xs) shed =
    elim (Bool-cases (leb surplus (length shed) || (x % n == idx))) [
      | inl stays ↦
          let ih = retain_own-Same n idx surplus xs shed in
          rw (retain_own, stays) (record { counts = λ s. omega (arith, ih.counts s) })
      | inr goes ↦
          let ih = retain_own-Same n idx surplus xs (shed ++ (x ∷ [])) in
          rw (retain_own, goes)
            (record { counts = λ s. omega (arith, ih.counts s, count-end s x shed) })
    ]

pop_own-Same :
    (over : ℕ) (xs shed : List ℕ)
    → let r = pop_own over xs shed in Same xs shed r.0 r.1 × (length r.0 ≤ length xs - over)
unfolding pop_own count
pop_own-Same zero xs shed = (record { counts = λ s. refl }, omega arith)
pop_own-Same (suc over) xs shed = elim (Option-cases (pop xs)) [
  | inl e ↦
      let empty : xs ≡ [] = subst (Popped xs) e (pop-Popped xs) in
      rw (pop_own, e) (record { counts = λ s. refl }, omega (arith, ap length empty))
  | inr found ↦
      let q = found.0 in
      let whole : xs ≡ q.0 ++ (q.1 ∷ []) = subst (Popped xs) found.1 (pop-Popped xs) in
      let ih = pop_own-Same over q.0 (shed ++ (q.1 ∷ [])) in
      rw (pop_own, found.1)
        (
          record {
            counts = λ s. omega (
              arith,
              ih.0.counts s,
              count-end s q.1 shed,
              count-end s q.1 q.0,
              ap (count s) whole,
            );
          },
          omega (arith, ih.1, ap length whole, length-end q.1 q.0),
        )
]

-- Shedding leaves at most the target.
pub shed_one-Same :
    (num_shards n idx : ℕ) (xs : List ℕ)
    → let r = shed_one num_shards n idx xs in
      Same xs [] r.0 r.1 × (length r.0 ≤ target num_shards n idx)
unfolding shed_one
shed_one-Same num_shards n idx xs =
    let goal = target num_shards n idx in
    let kept = retain_own n idx (length xs - goal) xs [] in
    let first = retain_own-Same n idx (length xs - goal) xs [] in
    let second = pop_own-Same (length kept.0 - goal) kept.0 kept.1 in
    (record { counts = λ s. second.0.counts s ∙ first.counts s }, omega (arith, second.1))

-- Filling reaches the number asked for, or takes all there is; never more than that.
pub fill_one-Same :
    (lacking : ℕ) (xs free : List ℕ)
    → let r = fill_one lacking xs free in
      Same xs free r.0 r.1
      × (length r.0 ≤ length xs + lacking)
      × ((length r.0 ≡ length xs + lacking) ⊎ (r.1 ≡ []))
unfolding fill_one count
fill_one-Same zero xs free = (record { counts = λ s. refl }, omega arith, inl (omega arith))
fill_one-Same (suc lacking) xs free = elim (Option-cases (pop free)) [
  | inl e ↦
      let empty : free ≡ [] = subst (Popped free) e (pop-Popped free) in
      rw (fill_one, e) (record { counts = λ s. refl }, omega arith, inr empty)
  | inr found ↦
      let q = found.0 in
      let whole : free ≡ q.0 ++ (q.1 ∷ []) = subst (Popped free) found.1 (pop-Popped free) in
      let ih = fill_one-Same lacking (xs ++ (q.1 ∷ [])) q.0 in
      let longer = length-end q.1 xs in
      rw (fill_one, found.1)
        (
          record {
            counts = λ s.
                omega (
                  arith,
                  ih.0.counts s,
                  count-end s q.1 xs,
                  count-end s q.1 q.0,
                  ap (count s) whole,
                );
          },
          omega (arith, ih.1, longer),
          elim ih.2 [ inl full ↦ inl (omega (arith, longer)) | inr empty ↦ inr empty ],
        )
]

-- Nothing is filled from nothing.
pub fill_one-none : (lacking : ℕ) (xs : List ℕ) → fill_one lacking xs [] ≡ (xs, [])
unfolding fill_one pop
fill_one-none zero xs = refl
fill_one-none (suc lacking) xs = refl

count-insert_id : (s x : ℕ) (xs : List ℕ) → count s (insert_id x xs) ≡ one_if (s == x) + count s xs
unfolding insert_id count
count-insert_id s x [] = refl
count-insert_id s x (y ∷ ys) = elim (Bool-cases (leb x y)) [
  | inl le ↦ rw (insert_id, le) refl
  | inr gt ↦ rw (insert_id, gt) (omega (arith, count-insert_id s x ys))
]

pub count-sort_ids : (s : ℕ) (xs : List ℕ) → count s (sort_ids xs) ≡ count s xs
unfolding sort_ids count
count-sort_ids s [] = refl
count-sort_ids s (x ∷ xs) = omega (arith, count-insert_id s x (sort_ids xs), count-sort_ids s xs)

length-insert_id : (x : ℕ) (xs : List ℕ) → length (insert_id x xs) ≡ suc (length xs)
unfolding insert_id
length-insert_id x [] = refl
length-insert_id x (y ∷ ys) = elim (Bool-cases (leb x y)) [
  | inl le ↦ rw (insert_id, le) refl
  | inr gt ↦ rw (insert_id, gt) (omega (arith, length-insert_id x ys))
]

pub length-sort_ids : (xs : List ℕ) → length (sort_ids xs) ≡ length xs
unfolding sort_ids
length-sort_ids [] = refl
length-sort_ids (x ∷ xs) = omega (arith, length-insert_id x (sort_ids xs), length-sort_ids xs)

-- The counts of the numbers below `n`, added up.
unfoldable pub total : ℕ → List ℕ → ℕ
total zero xs = 0
total (suc n) xs = total n xs + count n xs

total-nil : (n : ℕ) → total n [] ≡ 0
unfolding total count
total-nil zero = refl
total-nil (suc n) = omega (arith, total-nil n)

total-cons : (n x : ℕ) (xs : List ℕ) → total n (x ∷ xs) ≡ one_if (ltb x n) + total n xs
unfolding total count
total-cons zero x xs = ground arith
total-cons (suc n) x xs = let ih = total-cons n x xs in ground arith

total-all : (n : ℕ) (xs : List ℕ) → ((s : ℕ) → (s < n) ⊎ (count s xs ≡ 0)) → total n xs ≡ length xs
unfolding count
total-all n [] h = total-nil n
total-all n (x ∷ xs) h =
    let ih = total-all n xs (λ s. elim (h s) [ inl lt ↦ inl lt | inr z ↦ inr (omega arith) ]) in
    let low : x < n = elim (h x) [
      | inl lt ↦ lt
      | inr z ↦ absurd (let e = ==-refl x in ground arith)
    ] in
    let c = total-cons n x xs in ground arith

total-ones :
    (k n : ℕ) (xs : List ℕ) → k ≤ n → ((s : ℕ) → count s xs ≡ one_if (ltb s n)) → total k xs ≡ k
unfolding total
total-ones zero n xs le h = refl
total-ones (suc k) n xs le h =
    let ih = total-ones k n xs (omega arith) h in let c = h k in ground arith

-- A list that holds each number below `n` once, and no other, has length `n`.
pub length-ones : (n : ℕ) (xs : List ℕ) → ((s : ℕ) → count s xs ≡ one_if (ltb s n)) → length xs ≡ n
length-ones n xs h =
    sym (
      total-all n xs (λ s. elim (Bool-cases (ltb s n)) [
        | inl lt ↦ inl (ltb→lt s n lt)
        | inr ge ↦ inr (h s ∙ ap one_if ge)
      ]))
    ∙ total-ones n n xs (omega arith) h
