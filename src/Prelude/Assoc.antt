-- ===== src/Prelude/Assoc.antt =====
-- Association lists: a directory by file number, a hash map by key.
use mathlib.Core.Path.{◌≡◌, refl}
use mathlib.Core.Logic.{◌≢◌, ◌⊎◌, inl, inr}
use mathlib.Core.List.{List, [], ◌∷◌}
use mathlib.Core.Option.{Option, none, some}
use native.Mathlib.Omega.{arith}

-- To split on a computed option and keep the equation.
pub Option-cases {ℓ} : {A : Type ℓ} (o : Option A) → (o ≡ none) ⊎ ((a : A) × (o ≡ some a))
Option-cases none = inl refl
Option-cases (some a) = inr (a, refl)

module _ {ℓ κ} {K : Type ℓ} {V : Type κ} (dec : Discrete K) where
  unfoldable pub find : K → List (K × V) → Option V
  find k [] = none
  find k (e ∷ es) = elim (dec k e.0) [ yes p ↦ some e.1 | no p ↦ find k es ]

  -- A new key goes to the end.
  unfoldable pub put : K → V → List (K × V) → List (K × V)
  put k v [] = (k, v) ∷ []
  put k v (e ∷ es) = elim (dec k e.0) [ yes p ↦ (k, v) ∷ es | no p ↦ e ∷ put k v es ]

  unfoldable pub remove : K → List (K × V) → List (K × V)
  remove k [] = []
  remove k (e ∷ es) = elim (dec k e.0) [ yes p ↦ remove k es | no p ↦ e ∷ remove k es ]

  pub find-put_self : (k : K) (v : V) (es : List (K × V)) → find k (put k v es) ≡ some v
  unfolding find put
  find-put_self k v [] = ground (arith, λ (n : k ≢ k). n refl)
  find-put_self k v (e ∷ es) = ground (arith, find-put_self k v es)

  pub find-put_ne : (k j : K) (v : V) (es : List (K × V)) → k ≢ j → find k (put j v es) ≡ find k es
  unfolding find put
  find-put_ne k j v [] n = ground arith
  find-put_ne k j v (e ∷ es) n = ground (arith, find-put_ne k j v es n)

  pub find-remove_self : (k : K) (es : List (K × V)) → find k (remove k es) ≡ none
  unfolding find remove
  find-remove_self k [] = refl
  find-remove_self k (e ∷ es) = ground (arith, find-remove_self k es)

  pub find-remove_ne : (k j : K) (es : List (K × V)) → k ≢ j → find k (remove j es) ≡ find k es
  unfolding find remove
  find-remove_ne k j [] n = refl
  find-remove_ne k j (e ∷ es) n = ground (arith, find-remove_ne k j es n)
