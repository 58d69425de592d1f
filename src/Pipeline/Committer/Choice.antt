-- ===== src/Pipeline/Committer/Choice.antt =====
-- Which shard the committer takes next (logdb/src/pipeline/committer.rs): it tries all of them in turn.
use native.Mathlib.Nat.{mod-lt, mod-add-mod, mod-eq_of_lt}
use native.Mathlib.Decide.{dec_lt}
use lv_logdb.Prelude.{
  ℕ, zero, suc, ◌+◌, ◌-◌, ◌%◌, ◌<◌, ◌≡◌, refl, sym, ap, ◌∙◌, inl, inr, Bool, false, Bool-cases,
  none, List, [], ◌∷◌, length, get_or, ltb, arith,
}
use lv_logdb.Pipeline.Committer.Round.{CommitShard, any_uncommitted, choose_shard, committed_at}

-- The shard `i` has records that are not committed.
abbrev pub waits : List ℕ → List CommitShard → ℕ → Bool
waits avails ss i = ltb (committed_at ss i) (get_or avails i 0)

step_around : (n current j : ℕ) → 0 < n → ((current + 1) % n + j) % n ≡ (current + suc j) % n
step_around n current j pos =
    let same : current + 1 + j ≡ current + suc j = omega arith in
    mod-add-mod (current + 1) n j ∙ ap (λ k. k % n) same

pub full_turn : (n i : ℕ) → i < n → (i + n) % n ≡ i
full_turn n i less = grind arith

pub choose_shard-none :
    (n : ℕ) (avails : List ℕ) (ss : List CommitShard) (current j : ℕ)
    → current < length ss
    → (choose_shard n avails ss current).1 ≡ none
    → j < n
    → waits avails ss ((current + j) % length ss) ≡ false
unfolding choose_shard
choose_shard-none zero avails ss current j inside e less = absurd (omega arith)
choose_shard-none (suc n) avails ss current zero inside e less =
    let here : (current + 0) % length ss ≡ current =
      ap (λ k. k % length ss) (plus_zero current) ∙ mod-eq_of_lt inside in
    elim (Bool-cases (waits avails ss current)) [
      | inl on ↦ absurd (let z = rw (choose_shard, on) at e in cc)
      | inr off ↦ rw here off
    ]
  where
    plus_zero : (k : ℕ) → k + 0 ≡ k
    plus_zero k = omega arith
choose_shard-none (suc n) avails ss current (suc j) inside e less =
    elim (Bool-cases (waits avails ss current)) [
      | inl on ↦ absurd (let z = rw (choose_shard, on) at e in cc)
      | inr off ↦
          let rest = rw (choose_shard, off) at e in
          let pos : 0 < length ss = omega arith in
          rw (step_around (length ss) current j pos) at (
            choose_shard-none n avails ss ((current + 1) % length ss) j (mod-lt (current + 1) pos)
              rest (omega arith))
    ]

-- With nothing to commit anywhere the choice comes back to where it began.
pub choose_shard-idle :
    (n : ℕ) (avails : List ℕ) (ss : List CommitShard) (current : ℕ)
    → current < length ss
    → ((i : ℕ) → waits avails ss i ≡ false)
    → choose_shard n avails ss current ≡ ((current + n) % length ss, none)
unfolding choose_shard
choose_shard-idle zero avails ss current inside off =
    let here : (current + 0) % length ss ≡ current =
      ap (λ k. k % length ss) (plus_zero current) ∙ mod-eq_of_lt inside in
    ap (λ k. (k, none)) (sym here)
  where
    plus_zero : (k : ℕ) → k + 0 ≡ k
    plus_zero k = omega arith
choose_shard-idle (suc n) avails ss current inside off =
    let here = off current in
    let pos : 0 < length ss = omega arith in
    rw (choose_shard, here)
      (choose_shard-idle n avails ss ((current + 1) % length ss) (mod-lt (current + 1) pos) off
        ∙ ap (λ k. (k, none)) (step_around (length ss) current n pos))

pub any_uncommitted-waits :
    (avails : List ℕ) (ss : List CommitShard)
    → length avails ≡ length ss
    → any_uncommitted avails ss ≡ false
    → (i : ℕ) → waits avails ss i ≡ false
unfolding any_uncommitted
any_uncommitted-waits [] [] same off i = refl
any_uncommitted-waits [] (s ∷ ss) same off i = absurd (omega arith)
any_uncommitted-waits (a ∷ avails) [] same off i = absurd (omega arith)
any_uncommitted-waits (a ∷ avails) (s ∷ ss) same off zero = ground arith
any_uncommitted-waits (a ∷ avails) (s ∷ ss) same off (suc i) =
    any_uncommitted-waits avails ss (omega arith) (ground arith) i

pub waits-any_uncommitted :
    (avails : List ℕ) (ss : List CommitShard)
    → ((i : ℕ) → i < length ss → waits avails ss i ≡ false)
    → any_uncommitted avails ss ≡ false
unfolding any_uncommitted
waits-any_uncommitted [] ss off = refl
waits-any_uncommitted (a ∷ avails) [] off = refl
waits-any_uncommitted (a ∷ avails) (s ∷ ss) off =
    let here = off 0 (omega arith) in
    rw here (waits-any_uncommitted avails ss (λ i less. off (suc i) (omega arith)))

-- If no shard was chosen, then no shard waits.
pub choose_shard-none_waits :
    (avails : List ℕ) (ss : List CommitShard) (current : ℕ)
    → current < length ss
    → (choose_shard (length ss) avails ss current).1 ≡ none
    → any_uncommitted avails ss ≡ false
choose_shard-none_waits avails ss current inside e = waits-any_uncommitted avails ss (λ i less.
    let n = length ss in
    let j = (i + n - current) % n in
    let pos : 0 < n = omega arith in
    let back : (current + j) % n ≡ i = around n current i inside less in
    rw back at (choose_shard-none n avails ss current j inside e (mod-lt (i + n - current) pos)))
  where
    around : (n current i : ℕ) → current < n → i < n → (current + (i + n - current) % n) % n ≡ i
    around n current i inside less = elim (dec_lt i current) [
      | yes before ↦
          let once : (i + n - current) % n ≡ i + n - current = mod-eq_of_lt (omega arith) in
          let sum : current + (i + n - current) ≡ i + n = omega arith in
          ap (λ k. (current + k) % n) once ∙ ap (λ k. k % n) sum ∙ full_turn n i less
      | no behind ↦
          let split : i + n - current ≡ i - current + n = omega arith in
          let sum : current + (i - current) ≡ i = omega arith in
          ap (λ k. (current + k % n) % n) split
          ∙ ap (λ k. (current + k) % n) (full_turn n (i - current) (omega arith))
          ∙ ap (λ k. k % n) sum
          ∙ mod-eq_of_lt less
    ]
