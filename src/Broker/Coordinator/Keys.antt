-- ===== src/Broker/Coordinator/Keys.antt =====
-- The ids of the members and the entries of their shards (logdb-broker/src/coordinator.rs).
use lv_logdb.Prelude.{
  ℕ, ◌+◌, ◌≤◌, ◌≡◌, ◌≢◌, refl, sym, ap, ap₂, subst, ◌∙◌, false, List, [], ◌∷◌, ◌++◌, length, arith,
  find, remove,
}
use lv_logdb.Broker.Coordinator.{
  shards_of, is_member, kept_shards, shed_all, fill_all, sort_all, rebalanced,
}
use lv_logdb.Broker.Coordinator.Counting.{count, count-append}
use lv_logdb.Broker.Coordinator.Shares.{flat}
use lv_logdb.Broker.Coordinator.Group.{keys, without_member}

module _ {ℓ} {K : Type ℓ} (dec : Discrete K) where
  -- No id stands twice.
  abbrev pub Unique : List K → Type 0
  Unique [] = Unit
  Unique (m ∷ ms) = (is_member dec m ms ≡ false) × Unique ms

  is_member-cons :
      (k m : K) (ms : List K)
      → is_member dec k (m ∷ ms) ≡ false
      → (k ≢ m) × (is_member dec k ms ≡ false)
  unfolding is_member
  is_member-cons k m ms h = elim (dec k m) [
    | yes p ↦ absurd (let z = h in ground arith)
    | no n ↦ (n, ground arith)
  ]

  shards_of-ne :
      (k : K) (e : K × List ℕ) (es : List (K × List ℕ))
      → k ≢ e.0
      → shards_of dec k (e ∷ es) ≡ shards_of dec k es
  unfolding shards_of find
  shards_of-ne k e es n = ground arith

  pub shards_of-here : (e : K × List ℕ) (es : List (K × List ℕ)) → shards_of dec e.0 (e ∷ es) ≡ e.1
  unfolding shards_of find
  shards_of-here e es = ground (arith, λ (n : e.0 ≢ e.0). n refl)

  -- An entry that no member has is not read.
  kept_shards-cons :
      (e : K × List ℕ) (es : List (K × List ℕ)) (ms : List K)
      → is_member dec e.0 ms ≡ false
      → kept_shards dec (e ∷ es) ms ≡ kept_shards dec es ms
  unfolding kept_shards
  kept_shards-cons e es [] h = refl
  kept_shards-cons e es (m ∷ ms) h =
      let out = is_member-cons e.0 m ms h in
      ap₂ (λ v t. (m, v) ∷ t) (shards_of-ne m e es (λ q. out.0 (sym q)))
        (kept_shards-cons e es ms out.1)

  -- The members' own shards are read back.
  pub kept_shards-keys :
      (a : List (K × List ℕ)) → Unique (keys dec a) → kept_shards dec a (keys dec a) ≡ a
  unfolding kept_shards
  kept_shards-keys [] u = refl
  kept_shards-keys (e ∷ es) (new, u) =
      ap₂ (λ v t. (e.0, v) ∷ t) (shards_of-here e es)
        (kept_shards-cons e es (keys dec es) new ∙ kept_shards-keys es u)

  kept_shards-append :
      (a : List (K × List ℕ)) (ms ns : List K)
      → kept_shards dec a (ms ++ ns) ≡ kept_shards dec a ms ++ kept_shards dec a ns
  unfolding kept_shards
  kept_shards-append a [] ns = refl
  kept_shards-append a (m ∷ ms) ns =
      ap (λ t. (m, shards_of dec m a) ∷ t) (kept_shards-append a ms ns)

  flat-append :
      (s : ℕ) (a b : List (K × List ℕ))
      → count s (flat (a ++ b)) ≡ count s (flat a) + count s (flat b)
  unfolding flat count
  flat-append s [] b = omega arith
  flat-append s (e ∷ es) b =
      omega (
        arith,
        count-append s e.1 (flat (es ++ b)),
        count-append s e.1 (flat es),
        flat-append s es b,
      )

  shards_of-absent :
      (k : K) (a : List (K × List ℕ))
      → is_member dec k (keys dec a) ≡ false
      → shards_of dec k a ≡ []
  unfolding shards_of find
  shards_of-absent k [] h = refl
  shards_of-absent k (e ∷ es) h =
      let out = is_member-cons k e.0 (keys dec es) h in
      shards_of-ne k e es out.0 ∙ shards_of-absent k es out.1

  -- With a newcomer the members hold what they held.
  pub kept-joined :
      (id : K) (a : List (K × List ℕ)) (s : ℕ)
      → Unique (keys dec a)
      → is_member dec id (keys dec a) ≡ false
      → count s (flat (kept_shards dec a (keys dec a ++ (id ∷ [])))) ≡ count s (flat a)
  unfolding flat count kept_shards
  kept-joined id a s u new =
      ap (λ t. count s (flat t)) (kept_shards-append a (keys dec a) (id ∷ []))
      ∙ flat-append s (kept_shards dec a (keys dec a)) ((id, shards_of dec id a) ∷ [])
      ∙ (let none_yet : count s (shards_of dec id a ++ []) ≡ 0 =
            ap (λ t. count s (t ++ [])) (shards_of-absent id a new) in
          let own = ap (λ t. count s (flat t)) (kept_shards-keys a u) in omega arith)

  without_member-here : (id m : K) (ms : List K) → id ≡ m → without_member dec id (m ∷ ms) ≡ ms
  unfolding without_member
  without_member-here id m ms h = ground arith

  without_member-there :
      (id m : K) (ms : List K)
      → id ≢ m
      → without_member dec id (m ∷ ms) ≡ m ∷ without_member dec id ms
  unfolding without_member
  without_member-there id m ms n = ground arith

  remove-here :
      (id : K) (e : K × List ℕ) (es : List (K × List ℕ))
      → id ≡ e.0
      → remove dec id (e ∷ es) ≡ remove dec id es
  unfolding remove
  remove-here id e es h = ground arith

  remove-there :
      (id : K) (e : K × List ℕ) (es : List (K × List ℕ))
      → id ≢ e.0
      → remove dec id (e ∷ es) ≡ e ∷ remove dec id es
  unfolding remove
  remove-there id e es n = ground arith

  pub count-remove :
      (id : K) (s : ℕ) (a : List (K × List ℕ)) → count s (flat (remove dec id a)) ≤ count s (flat a)
  unfolding flat remove
  count-remove id s [] = omega arith
  count-remove id s (e ∷ es) =
      let ih = count-remove id s es in
      let all = count-append s e.1 (flat es) in
      let kept = count-append s e.1 (flat (remove dec id es)) in
      elim (dec id e.0) [
        | yes p ↦ let same = ap (λ t. count s (flat t)) (remove-here id e es p) in omega arith
        | no n ↦ let same = ap (λ t. count s (flat t)) (remove-there id e es n) in omega arith
      ]

  remove-absent :
      (id : K) (a : List (K × List ℕ)) → is_member dec id (keys dec a) ≡ false → remove dec id a ≡ a
  unfolding remove
  remove-absent id [] h = refl
  remove-absent id (e ∷ es) h =
      let out = is_member-cons id e.0 (keys dec es) h in
      remove-there id e es out.0 ∙ ap (λ t. e ∷ t) (remove-absent id es out.1)

  pub keys-remove :
      (id : K) (a : List (K × List ℕ))
      → Unique (keys dec a)
      → keys dec (remove dec id a) ≡ without_member dec id (keys dec a)
  unfolding remove without_member
  keys-remove id [] u = refl
  keys-remove id (e ∷ es) (new, u) = elim (dec id e.0) [
    | yes p ↦
        ap (keys dec) (
          remove-here id e es p
          ∙ remove-absent id es (subst (λ k. is_member dec k (keys dec es) ≡ false) (sym p) new))
        ∙ sym (without_member-here id e.0 (keys dec es) p)
    | no n ↦
        ap (keys dec) (remove-there id e es n)
        ∙ ap (λ t. e.0 ∷ t) (keys-remove id es u)
        ∙ sym (without_member-there id e.0 (keys dec es) n)
  ]

  is_member-without :
      (k id : K) (ms : List K)
      → is_member dec k ms ≡ false
      → is_member dec k (without_member dec id ms) ≡ false
  unfolding is_member without_member
  is_member-without k id [] h = refl
  is_member-without k id (m ∷ ms) h = ground (arith, is_member-without k id ms)

  pub Unique-without : (id : K) (ms : List K) → Unique ms → Unique (without_member dec id ms)
  unfolding without_member
  Unique-without id [] u = tt
  Unique-without id (m ∷ ms) (new, u) = elim (dec id m) [
    | yes p ↦ subst Unique (sym (without_member-here id m ms p)) u
    | no n ↦
        subst Unique (sym (without_member-there id m ms n))
          (is_member-without m id ms new, Unique-without id ms u)
  ]

  is_member-end :
      (k id : K) (ms : List K)
      → k ≢ id
      → is_member dec k ms ≡ false
      → is_member dec k (ms ++ (id ∷ [])) ≡ false
  unfolding is_member
  is_member-end k id [] n h = ground arith
  is_member-end k id (m ∷ ms) n h = ground (arith, is_member-end k id ms n)

  pub Unique-end :
      (id : K) (ms : List K) → is_member dec id ms ≡ false → Unique ms → Unique (ms ++ (id ∷ []))
  unfolding is_member
  Unique-end id [] h u = (refl, tt)
  Unique-end id (m ∷ ms) h (new, u) =
      let out = is_member-cons id m ms h in
      (is_member-end m id ms (λ q. out.0 (sym q)) new, Unique-end id ms out.1 u)

  keys-kept_shards : (a : List (K × List ℕ)) (ms : List K) → keys dec (kept_shards dec a ms) ≡ ms
  unfolding kept_shards
  keys-kept_shards a [] = refl
  keys-kept_shards a (m ∷ ms) = ap (λ t. m ∷ t) (keys-kept_shards a ms)

  keys-shed_all :
      (num n idx : ℕ) (a : List (K × List ℕ)) (free : List ℕ)
      → keys dec (shed_all dec num n idx a free).0 ≡ keys dec a
  unfolding shed_all
  keys-shed_all num n idx [] free = refl
  keys-shed_all num n idx (e ∷ es) free = ap (λ t. e.0 ∷ t) (keys-shed_all num n (idx + 1) es _)

  keys-fill_all :
      (num n idx : ℕ) (a : List (K × List ℕ)) (free : List ℕ)
      → keys dec (fill_all dec num n idx a free).0 ≡ keys dec a
  unfolding fill_all
  keys-fill_all num n idx [] free = refl
  keys-fill_all num n idx (e ∷ es) free = ap (λ t. e.0 ∷ t) (keys-fill_all num n (idx + 1) es _)

  keys-sort_all : (a : List (K × List ℕ)) → keys dec (sort_all dec a) ≡ keys dec a
  unfolding sort_all
  keys-sort_all [] = refl
  keys-sort_all (e ∷ es) = ap (λ t. e.0 ∷ t) (keys-sort_all es)

  pub keys-rebalanced :
      (num : ℕ) (ms : List K) (old : List (K × List ℕ)) → keys dec (rebalanced dec num ms old) ≡ ms
  unfolding rebalanced
  keys-rebalanced num ms old =
      keys-sort_all _
      ∙ keys-fill_all num (length ms) 0 _ _
      ∙ keys-shed_all num (length ms) 0 (kept_shards dec old ms) _
      ∙ keys-kept_shards old ms
