-- ===== src/Pipeline/Flush/Done.antt =====
-- A flush (logdb/src/pipeline/signal.rs) is done when the committer has reached what was asked for,
-- and stays done.
use lv_logdb.Prelude.{
  ℕ, zero, suc, ◌+◌, ◌≡◌, refl, ap, ap₂, ◌∙◌, ◌++◌, append_assoc, length-append, Bool, true, false,
  List, [], ◌∷◌, get_or, set, length, ltb, if◌then◌else◌, if_intro, Bool-cases, inl, inr, arith,
}
use lv_logdb.Pipeline.Flush.{FlushSignal, complete, reached, is_done, complete_all}

-- `complete` on the list of cells.
abbrev pub raise : List ℕ → ℕ → ℕ → List ℕ
raise [] shard d = []
raise (c ∷ cs) zero d = (if ltb c d then d else c) ∷ cs
raise (c ∷ cs) (suc i) d = c ∷ raise cs i d

cons-if :
    (b : Bool) (c : ℕ) (xs ys : List ℕ)
    → (if b then c ∷ xs else c ∷ ys) ≡ c ∷ (if b then xs else ys)
cons-if true c xs ys = refl
cons-if false c xs ys = refl

completed-if :
    (b : Bool) (f : FlushSignal) (xs : List ℕ)
    → (if b then record f { completed = xs } else f).completed ≡ (if b then xs else f.completed)
completed-if true f xs = refl
completed-if false f xs = refl

raise-set :
    (cs : List ℕ) (i d : ℕ) → (if ltb (get_or cs i d) d then set cs i d else cs) ≡ raise cs i d
raise-set [] i d = if_intro (λ t. t ≡ []) (ltb d d) (λ _. refl) (λ _. refl)
raise-set (c ∷ cs) zero d = elim (Bool-cases (ltb c d)) [ inl e ↦ rw e refl | inr e ↦ rw e refl ]
raise-set (c ∷ cs) (suc i) d =
    cons-if (ltb (get_or cs i d) d) c (set cs i d) cs ∙ ap (λ t. c ∷ t) (raise-set cs i d)

-- A flush that is done stays done.
reached-raise :
    (cs per_shard : List ℕ) (i d : ℕ)
    → reached cs per_shard ≡ true
    → reached (raise cs i d) per_shard ≡ true
unfolding reached
reached-raise cs [] i d h = refl
reached-raise [] (t ∷ ts) i d h = refl
reached-raise (c ∷ cs) (t ∷ ts) zero d h = ground arith
reached-raise (c ∷ cs) (t ∷ ts) (suc i) d h = ground (arith, reached-raise cs ts i d)

completed-complete :
    (f : FlushSignal) (i d : ℕ) → (complete f i d).completed ≡ raise f.completed i d
unfolding complete
completed-complete f i d =
    completed-if (ltb (get_or f.completed i d) d) f (set f.completed i d)
    ∙ raise-set f.completed i d

-- A flush that is done stays done, whatever is reported for whatever shard.
pub is_done-complete :
    (f : FlushSignal) (per_shard : List ℕ) (shard durable : ℕ)
    → is_done f per_shard ≡ true
    → is_done (complete f shard durable) per_shard ≡ true
unfolding is_done
is_done-complete f per_shard shard durable h =
    ap (λ t. reached t per_shard) (completed-complete f shard durable)
    ∙ reached-raise f.completed per_shard shard durable h

-- All cells, each raised to what is reported for it.
abbrev raise_all : List ℕ → List ℕ → List ℕ
raise_all [] ds = []
raise_all (c ∷ cs) [] = c ∷ cs
raise_all (c ∷ cs) (d ∷ ds) = (if ltb c d then d else c) ∷ raise_all cs ds

raise-append :
    (pre : List ℕ) (c : ℕ) (cs : List ℕ) (d : ℕ)
    → raise (pre ++ (c ∷ cs)) (length pre) d ≡ (pre ++ ((if ltb c d then d else c) ∷ [])) ++ cs
raise-append [] c cs d = refl
raise-append (x ∷ pre) c cs d = ap (λ t. x ∷ t) (raise-append pre c cs d)

completed-complete_all :
    (ds pre cs : List ℕ) (f : FlushSignal) (shard : ℕ)
    → f.completed ≡ pre ++ cs
    → shard ≡ length pre
    → length cs ≡ length ds
    → (complete_all f shard ds).completed ≡ pre ++ raise_all cs ds
unfolding complete_all
completed-complete_all [] pre [] f shard e at_shard same = e
completed-complete_all [] pre (c ∷ cs) f shard e at_shard same = absurd (omega arith)
completed-complete_all (d ∷ ds) pre [] f shard e at_shard same = absurd (omega arith)
completed-complete_all (d ∷ ds) pre (c ∷ cs) f shard e at_shard same =
    let new_cell : ℕ = if ltb c d then d else c in
    let one : (complete f shard d).completed ≡ (pre ++ (new_cell ∷ [])) ++ cs =
      completed-complete f shard d
      ∙ ap₂ (λ t i. raise t i d) e at_shard
      ∙ raise-append pre c cs d in
    completed-complete_all ds (pre ++ (new_cell ∷ [])) cs (complete f shard d) (shard + 1) one
      (omega (arith, length-append pre (new_cell ∷ []))) (omega arith)
    ∙ append_assoc pre (new_cell ∷ []) (raise_all cs ds)

reached-raise_all :
    (cs ds per_shard : List ℕ)
    → length cs ≡ length ds
    → reached ds per_shard ≡ true
    → reached (raise_all cs ds) per_shard ≡ true
unfolding reached
reached-raise_all [] ds [] same h = refl
reached-raise_all [] ds (t ∷ ts) same h = refl
reached-raise_all (c ∷ cs) [] ts same h = absurd (omega arith)
reached-raise_all (c ∷ cs) (d ∷ ds) [] same h = refl
reached-raise_all (c ∷ cs) (d ∷ ds) (t ∷ ts) same h =
    ground (arith, reached-raise_all cs ds ts (omega arith))

-- Once the committer has reported for each shard a number that reaches what a flush asked for there,
-- the flush is done.
is_done-complete_all :
    (f : FlushSignal) (durable per_shard : List ℕ)
    → length f.completed ≡ length durable
    → reached durable per_shard ≡ true
    → is_done (complete_all f 0 durable) per_shard ≡ true
unfolding is_done
is_done-complete_all f durable per_shard same h =
    ap (λ t. reached t per_shard) (completed-complete_all durable [] f.completed f 0 refl refl same)
    ∙ reached-raise_all f.completed durable per_shard same h
