-- ===== src/Broker/Coordinator/Shares.antt =====
-- The shards of all members in one list, and the share of each member (`target` of `recompute_sticky` in
-- logdb-broker/src/coordinator.rs).
use native.Mathlib.Nat.{div-add-mod, mod-lt, suc-mul}
use lv_logdb.Prelude.{
  ℕ, zero, suc, ◌+◌, ◌*◌, ◌/◌, ◌%◌, ◌≤◌, ◌<◌, ◌≡◌, List, [], ◌∷◌, ◌++◌, length, length-append, min,
  arith,
}
use lv_logdb.Broker.Coordinator.{target}

-- The shares of `k` members from the number `idx` on, added up.
unfoldable pub shares : ℕ → ℕ → ℕ → ℕ → ℕ
shares num n idx zero = 0
shares num n idx (suc k) = target num n idx + shares num n (idx + 1) k

shares-closed :
    (num n idx k : ℕ)
    → shares num n idx k + min idx (num % n) ≡ k * (num / n) + min (idx + k) (num % n)
unfolding shares
shares-closed num n idx zero = omega arith
shares-closed num n idx (suc k) =
    let ih = shares-closed num n (idx + 1) k in
    let m : suc k * (num / n) ≡ k * (num / n) + num / n = suc-mul k (num / n) in ground arith

pub shares-all : (num n : ℕ) → 0 < n → shares num n 0 n ≡ num
shares-all num n h =
    let c = shares-closed num n 0 n in
    let e = div-add-mod num n in let less : num % n < n = mod-lt num h in omega arith

module _ {ℓ} {K : Type ℓ} where
  -- The shards of all members.
  unfoldable pub flat : List (K × List ℕ) → List ℕ
  flat [] = []
  flat (e ∷ es) = e.1 ++ flat es

  -- No member has more than its share; and each has its share.
  abbrev pub AtMost : ℕ → ℕ → ℕ → List (K × List ℕ) → Type 0
  AtMost num n idx [] = Unit
  AtMost num n idx (e ∷ es) = (length e.1 ≤ target num n idx) × AtMost num n (idx + 1) es

  abbrev pub Fair : ℕ → ℕ → ℕ → List (K × List ℕ) → Type 0
  Fair num n idx [] = Unit
  Fair num n idx (e ∷ es) = (length e.1 ≡ target num n idx) × Fair num n (idx + 1) es

  AtMost-shares :
      (num n idx : ℕ) (a : List (K × List ℕ))
      → AtMost num n idx a
      → length (flat a) ≤ shares num n idx (length a)
  unfolding flat shares
  AtMost-shares num n idx [] h = omega arith
  AtMost-shares num n idx (e ∷ es) (h, hs) =
      omega (arith, AtMost-shares num n (idx + 1) es hs, length-append e.1 (flat es))

  pub Fair-shares :
      (num n idx : ℕ) (a : List (K × List ℕ))
      → Fair num n idx a
      → length (flat a) ≡ shares num n idx (length a)
  unfolding flat shares
  Fair-shares num n idx [] h = omega arith
  Fair-shares num n idx (e ∷ es) (h, hs) =
      omega (arith, Fair-shares num n (idx + 1) es hs, length-append e.1 (flat es))

  -- Who holds no more than the shares, and all of them together, holds just the shares.
  pub AtMost-Fair :
      (num n idx : ℕ) (a : List (K × List ℕ))
      → AtMost num n idx a
      → shares num n idx (length a) ≤ length (flat a)
      → Fair num n idx a
  unfolding flat shares
  AtMost-Fair num n idx [] h le = tt
  AtMost-Fair num n idx (e ∷ es) (h, hs) le =
      let rest = AtMost-shares num n (idx + 1) es hs in
      let all = length-append e.1 (flat es) in
      (omega arith, AtMost-Fair num n (idx + 1) es hs (omega arith))
