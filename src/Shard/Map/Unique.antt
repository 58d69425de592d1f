-- ===== src/Shard/Map/Unique.antt =====
-- The record ids of the claims of logdb/src/shard.rs.
use lv_logdb.Prelude.{
  ℕ, zero, suc, ◌+◌, ◌*◌, ◌%◌, ◌^◌, ◌≤◌, ◌<◌, ◌≡◌, ◌≢◌, refl, sym, ap, subst, ◌∙◌, inl, inr, Option,
  none, some, List, [], ◌∷◌, ◌++◌, length, get_elem?, All, All-mono, arith, ok, err, pow_pos,
  ℕ_discrete, length-set, get_elem?-set_self, get_elem?-set_ne, Bool, true, false, if◌then◌else◌,
  if_intro, ◌==◌, Option-cases,
}
use lv_logdb.Ring.{Ring}
use lv_logdb.Shard.{encode_record_id, decode_record_id}
use lv_logdb.Shard.Ids.{decode_record_id-encode_record_id}
use lv_logdb.Shard.Map.{
  ShardMap, claim, take_batch, identified, Claim, claim_on_shard, claim_batch, Request, one, batch,
  shard_of, count_of, answer, batch_ids, with_ids, claim_all,
}

abbrev pub cursor_or_zero : Option Ring → ℕ
cursor_or_zero none = 0
cursor_or_zero (some r) = r.producer_cursor

abbrev pub cursor : ShardMap → ℕ → ℕ
cursor m s = cursor_or_zero (get_elem? m.rings s)

-- The bits hold every shard, and `k` more numbers on each.
pub record HasRoom (k : ℕ) (m : ShardMap) : Type 0 where
  pub shards_in : length m.rings ≤ 2 ^ m.bits
  pub numbers_in : (s : ℕ) → (cursor m s + k) * 2 ^ m.bits < 2 ^ 64

-- The numbers that the calls ask for.
abbrev pub total : List Request → ℕ
total [] = 0
total (q ∷ qs) = count_of q + total qs

-- An id of the shard's numbers from its cursor on.
abbrev IsFrom : ShardMap → ℕ → Type 0
IsFrom m id = (j : ℕ) × (k : ℕ) × (decode_record_id id m.bits ≡ (j, k)) × (cursor m j ≤ k)

-- The same, with the shard `s` at `l`.
abbrev IsPast : ShardMap → ℕ → ℕ → ℕ → Type 0
IsPast m s l id =
    (j : ℕ) × (k : ℕ) × (decode_record_id id m.bits ≡ (j, k)) × (cursor m j ≤ k) × (j ≡ s → l ≤ k)

abbrev pub AreDistinct : List ℕ → Type 0
AreDistinct [] = Unit
AreDistinct (id ∷ ids) = All (λ j. j ≢ id) ids × AreDistinct ids

get_elem?-lt : (rs : List Ring) (s : ℕ) (r : Ring) → get_elem? rs s ≡ some r → s < length rs
get_elem?-lt [] s r e = absurd cc
get_elem?-lt (x ∷ rs) zero r e = omega arith
get_elem?-lt (x ∷ rs) (suc s) r e = omega (arith, get_elem?-lt rs s r e)

le-mul : (a b p : ℕ) → a ≤ b → a * p ≤ b * p
le-mul a b p le = grind arith

-- What a call for `n` numbers on the shard does.
IsClaimed : ℕ → ℕ → ShardMap → Claim × ShardMap → Type 0
IsClaimed s n m (err e, m') = m' ≡ m
IsClaimed s n m (ok t, m') =
    (t.1 ≡ s)
    × (t.2 ≡ cursor m s)
    × (s < length m.rings)
    × (m'.bits ≡ m.bits)
    × (length m'.rings ≡ length m.rings)
    × (cursor m' s ≡ cursor m s + n)
    × ((j : ℕ) → j ≢ s → cursor m' j ≡ cursor m j)

small-cursor : (c k p : ℕ) → 0 < p → (c + k) * p < 2 ^ 64 → c + k < 2 ^ 64
small-cursor c k p pos h = let least : c + k ≤ (c + k) * p = grind arith in omega arith

-- What both ways to claim come to.
identified-IsClaimed :
    (s n : ℕ) (m : ShardMap) (r : Ring) (full : Bool)
    → HasRoom n m
    → get_elem? m.rings s ≡ some r
    → IsClaimed s n m (
        identified s m (
          if full then (none, r) else (
            some r.producer_cursor,
            record r { producer_cursor = (r.producer_cursor + n) % 2 ^ 64 },
          )))
unfolding IsClaimed
identified-IsClaimed s n m r true room e = refl
identified-IsClaimed s n m r false room e =
    let lt = get_elem?-lt m.rings s r e in
    let small = small-cursor (cursor m s) n (2 ^ m.bits) (pow_pos m.bits) (room.numbers_in s) in
    let at : cursor m s ≡ r.producer_cursor = ap cursor_or_zero e in
    (
      refl,
      sym at,
      lt,
      refl,
      length-set m.rings s _,
      ap cursor_or_zero (get_elem?-set_self m.rings s _ lt) ∙ omega arith,
      λ j apart. ap cursor_or_zero (get_elem?-set_ne m.rings s j _ (λ q. apart (sym q))),
    )

answer-IsClaimed :
    (q : Request) (m : ShardMap)
    → HasRoom (count_of q) m
    → IsClaimed (shard_of q) (count_of q) m (answer q m)
unfolding claim_on_shard claim claim_batch take_batch IsClaimed
answer-IsClaimed (one s) m room = elim (Option-cases (get_elem? m.rings s)) [
  | inl missing ↦ rw (claim_on_shard, missing) refl
  | inr (r, e) ↦ rw (claim_on_shard, e) (identified-IsClaimed s 1 m r _ room e)
]
answer-IsClaimed (batch s n) m room = elim (Option-cases (get_elem? m.rings s)) [
  | inl missing ↦ rw (claim_batch, missing) refl
  | inr (r, e) ↦
      rw (claim_batch, e)
        (if_intro (IsClaimed s n m) (n == 0) (λ _. refl)
          (λ _. identified-IsClaimed s n m r _ room e))
]

-- What a call leaves: the same bits, and cursors that never go back and by at most `n` on.
record Grows (n : ℕ) (m m' : ShardMap) : Type 0 where
  same_bits : m'.bits ≡ m.bits
  same_length : length m'.rings ≡ length m.rings
  not_back : (j : ℕ) → cursor m j ≤ cursor m' j
  so_far : (j : ℕ) → cursor m' j ≤ cursor m j + n

IsClaimed-Grows :
    (s n : ℕ) (m : ShardMap) (o : Claim × ShardMap) → IsClaimed s n m o → Grows n m o.1
unfolding IsClaimed
IsClaimed-Grows s n m (err e, m') same = record {
  same_bits = ap (λ (x : ShardMap). x.bits) same;
  same_length = ap (λ (x : ShardMap). length x.rings) same;
  not_back = λ j. let at = ap (λ (x : ShardMap). cursor x j) same in omega arith;
  so_far = λ j. let at = ap (λ (x : ShardMap). cursor x j) same in omega arith;
}
IsClaimed-Grows s n m (ok t, m') (at_s, at, in_map, bits, long, up, others) = record {
  same_bits = bits;
  same_length = long;
  not_back = λ j. (moved j (ℕ_discrete j s)).0;
  so_far = λ j. (moved j (ℕ_discrete j s)).1;
}
  where
    moved : (j : ℕ) → Dec (j ≡ s) → (cursor m j ≤ cursor m' j) × (cursor m' j ≤ cursor m j + n)
    moved j (yes p) =
        let here = subst (λ i. cursor m' i ≡ cursor m i + n) (sym p) up in
        (omega arith, omega arith)
    moved j (no apart) = let same = others j apart in (omega arith, omega arith)

Grows-HasRoom : (n k : ℕ) (m m' : ShardMap) → Grows n m m' → HasRoom (n + k) m → HasRoom k m'
Grows-HasRoom n k m m' g room = record {
  shards_in = rw (g.same_length, g.same_bits) room.shards_in;
  numbers_in = λ s.
      let top = room.numbers_in s in
      let on = g.so_far s in
      let le = le-mul (cursor m' s + k) (cursor m s + (n + k)) (2 ^ m.bits) (omega arith) in
      rw g.same_bits (omega arith);
}

HasRoom-less : (n k : ℕ) (m : ShardMap) → HasRoom (n + k) m → HasRoom n m
HasRoom-less n k m room = record {
  shards_in = room.shards_in;
  numbers_in = λ s.
      let top = room.numbers_in s in
      let le = le-mul (cursor m s + n) (cursor m s + (n + k)) (2 ^ m.bits) (omega arith) in
      omega arith;
}

-- The ids of a batch come before others, with their numbers below.
batch_ids-IsPast :
    (m : ShardMap) (s n l : ℕ) (ids : List ℕ)
    → s < 2 ^ m.bits
    → (l + n) * 2 ^ m.bits < 2 ^ 64
    → cursor m s ≤ l
    → All (IsPast m s (l + n)) ids
    → AreDistinct ids
    → All (IsPast m s l) (batch_ids n s l m.bits ++ ids)
      × AreDistinct (batch_ids n s l m.bits ++ ids)
unfolding batch_ids
batch_ids-IsPast m s zero l ids in_bits top low past apart =
    let here : l + 0 ≡ l = omega arith in (subst (λ k. All (IsPast m s k) ids) here past, apart)
batch_ids-IsPast m s (suc n) l ids in_bits top low past apart =
    let step : l + suc n ≡ l + 1 + n = omega arith in
    let p = 2 ^ m.bits in
    let one_more : (l + 1) * p ≡ l * p + p = grind arith in
    let below = le-mul (l + 1) (l + suc n) p (omega arith) in
    let back = decode_record_id-encode_record_id s l m.bits (in_bits, omega arith) in
    let (tail_past, tail_apart) =
      batch_ids-IsPast m s n (l + 1) ids in_bits (subst (λ k. k * 2 ^ m.bits < 2 ^ 64) step top)
        (omega arith) (subst (λ k. All (IsPast m s k) ids) step past) apart in
    (
      ((s, l, back, low, λ _. omega arith), All-mono _ _ weaken _ tail_past),
      (All-mono _ _ (other back) _ tail_past, tail_apart),
    )
  where
    weaken : (id : ℕ) → IsPast m s (l + 1) id → IsPast m s l id
    weaken id (j, k, at, from, le) = (j, k, at, from, λ e. omega (arith, le e))

    other :
        decode_record_id (encode_record_id s l m.bits) m.bits ≡ (s, l)
        → (id : ℕ) → IsPast m s (l + 1) id
        → id ≢ encode_record_id s l m.bits
    other back id (j, k, at, from, le) e =
        let here : ◌≡◌ {A = ℕ × ℕ} (j, k) (s, l) =
          sym at ∙ ap (λ i. decode_record_id i m.bits) e ∙ back in
        let same_s : j ≡ s = ap (λ p. p.0) here in
        let same_l : k ≡ l = ap (λ p. p.1) here in omega (arith, le same_s, same_l)

IsFrom-Grows : (n : ℕ) (m m' : ShardMap) → Grows n m m' → (id : ℕ) → IsFrom m' id → IsFrom m id
IsFrom-Grows n m m' g id (j, k, at, le) =
    (j, k, rw (← g.same_bits) at, (let back = g.not_back j in omega arith))

IsPast-IsFrom : (m : ShardMap) (s l id : ℕ) → IsPast m s l id → IsFrom m id
IsPast-IsFrom m s l id (j, k, at, from, le) = (j, k, at, from)

-- The ids of later calls come after those of this one.
with_ids-AreDistinct :
    (s n : ℕ) (m : ShardMap) (o : Claim × ShardMap) (ids : List ℕ)
    → HasRoom n m
    → IsClaimed s n m o
    → Grows n m o.1
    → All (IsFrom o.1) ids
    → AreDistinct ids
    → All (IsFrom m) (with_ids n m.bits o.0 ids) × AreDistinct (with_ids n m.bits o.0 ids)
unfolding IsClaimed
with_ids-AreDistinct s n m (err e, m') ids room claimed g from apart =
    (All-mono _ _ (IsFrom-Grows n m m' g) _ from, apart)
with_ids-AreDistinct s n m (ok t, m') ids room (at_s, at, in_map, bits, long, up, others) g from
      apart =
    let both =
      batch_ids-IsPast m s n (cursor m s) ids (omega (arith, room.shards_in)) (room.numbers_in s)
        (omega arith) (All-mono _ _ after ids from) apart in
    rw (at_s, at) (All-mono _ _ (IsPast-IsFrom m s (cursor m s)) _ both.0, both.1)
  where
    after : (id : ℕ) → IsFrom m' id → IsPast m s (cursor m s + n) id
    after id (j, k, d, le) =
        let earlier = g.not_back j in
        (
          j,
          k,
          rw (← bits) d,
          omega arith,
          λ e. (let le' : cursor m' s ≤ k = subst (λ i. cursor m' i ≤ k) e le in omega (arith, up)),
        )

claim_all-both :
    (qs : List Request) (m : ShardMap)
    → HasRoom (total qs) m
    → All (IsFrom m) (claim_all qs m) × AreDistinct (claim_all qs m)
unfolding claim_all
claim_all-both [] m room = (tt, tt)
claim_all-both (q ∷ qs) m room =
    let less = HasRoom-less (count_of q) (total qs) m room in
    let claimed = answer-IsClaimed q m less in
    let g = IsClaimed-Grows (shard_of q) (count_of q) m (answer q m) claimed in
    let (from, apart) =
      claim_all-both qs (answer q m).1
        (Grows-HasRoom (count_of q) (total qs) m (answer q m).1 g room) in
    with_ids-AreDistinct (shard_of q) (count_of q) m (answer q m) _ less claimed g from apart

-- No two claims, of one number or of a batch, give the same record id, where the bits hold every shard and the numbers
-- of each leave room for all the numbers that are claimed.
pub claim_all-AreDistinct :
    (qs : List Request) (m : ShardMap) → HasRoom (total qs) m → AreDistinct (claim_all qs m)
claim_all-AreDistinct qs m room = (claim_all-both qs m room).1
