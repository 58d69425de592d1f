-- ===== src/Shard/Ids.antt =====
-- The record ids of logdb/src/shard.rs: enough bits, no two records alike, in order.
use native.Mathlib.Nat.{mod-eq_of_lt}
use lv_logdb.Prelude.{
  ℕ, zero, suc, ◌+◌, ◌-◌, ◌*◌, ◌/◌, ◌%◌, ◌^◌, ◌≤◌, ◌<◌, ◌≡◌, ◌⊎◌, inl, inr, refl, ap₂, ◌∙◌, arith,
  ltb, leb, Bool-cases, ltb→lt, ltb-false→le, leb→le, ne→==-false, bit_or-shift, bit_and-mask,
  pow_pos, ltb,
}
use lv_logdb.Shard.{leading_zeros, shard_bits, encode_record_id, decode_record_id}

-- What is left of `w` bits without the leading zeros of `x` is the least number that holds `x`.
record IsWidth (x k : ℕ) : Type 0 where
  holds : x < 2 ^ k
  least : 0 < k → 2 ^ (k - 1) ≤ x

leading_zeros-IsWidth :
    (w x : ℕ) → x < 2 ^ w → (leading_zeros w x ≤ w) × IsWidth x (w - leading_zeros w x)
unfolding leading_zeros
leading_zeros-IsWidth zero x h =
    (omega arith, record { holds = h; least = λ p. absurd (omega arith) })
leading_zeros-IsWidth (suc w) x h = elim (Bool-cases (ltb x (2 ^ w))) [
  | inl less ↦
      let (le, width) = leading_zeros-IsWidth w x (ltb→lt x (2 ^ w) less) in
      let same : suc w - suc (leading_zeros w x) ≡ w - leading_zeros w x = omega arith in
      rw less (omega arith, rw same width)
  | inr more ↦
      let all : suc w - 0 ≡ suc w = omega arith in
      let but_one : suc w - 1 ≡ w = omega arith in
      rw more (
        omega arith,
        rw all (record { holds = h; least = λ p. rw but_one (ltb-false→le x (2 ^ w) more) }),
      )
]

width_pos : (x k n : ℕ) → IsWidth x k → x < n → (k ≡ 0) ⊎ (2 ^ (k - 1) < n)
width_pos x zero n width h = inl refl
width_pos x (suc k) n width h = inr (omega (arith, width.least (omega arith)))

-- For at least one shard, and at most 2 ^ 64, `shard_bits` is the least number of bits that tells the shards apart.
pub shard_bits-IsWidth :
    (num_shards : ℕ)
    → 1 ≤ num_shards
    → num_shards ≤ 2 ^ 64
    → (num_shards ≤ 2 ^ shard_bits num_shards)
      × ((shard_bits num_shards ≡ 0) ⊎ (2 ^ (shard_bits num_shards - 1) < num_shards))
unfolding shard_bits
shard_bits-IsWidth n lo hi = elim (Bool-cases (leb n 1)) [
  | inl one ↦ rw one (omega (arith, leb→le n 1 one), inl refl)
  | inr many ↦
      let (le, width) = leading_zeros-IsWidth 64 (n - 1) (omega arith) in
      rw many (
        omega (arith, width.holds),
        width_pos (n - 1) (64 - leading_zeros 64 (n - 1)) n width (omega arith),
      )
]

-- A local number that fits the bits left of the shard's.
abbrev pub Fits : ℕ → ℕ → ℕ → Type 0
Fits shard_id local_seq bits = (shard_id < 2 ^ bits) × (local_seq * 2 ^ bits + 2 ^ bits ≤ 2 ^ 64)

-- The union is a sum.
pub encode_record_id-eq :
    (shard_id local_seq bits : ℕ)
    → Fits shard_id local_seq bits
    → encode_record_id shard_id local_seq bits ≡ local_seq * 2 ^ bits + shard_id
unfolding encode_record_id
encode_record_id-eq shard_id local_seq zero h = omega arith
encode_record_id-eq shard_id local_seq (suc k) h =
    let p = pow_pos (suc k) in
    rw
      (
        ne→==-false (suc k) 0 (λ e. absurd (omega (arith, e))),
        mod-eq_of_lt {n = local_seq * 2 ^ suc k} {m = 2 ^ 64} (omega arith),
      )
      (bit_or-shift (suc k) local_seq shard_id h.0)

-- The id of a shard that fits its bits, and of a local number that fits the others, gives back both.
pub decode_record_id-encode_record_id :
    (shard_id local_seq bits : ℕ)
    → Fits shard_id local_seq bits
    → decode_record_id (encode_record_id shard_id local_seq bits) bits ≡ (shard_id, local_seq)
unfolding decode_record_id
decode_record_id-encode_record_id shard_id local_seq zero h =
    let only : 0 ≡ shard_id = omega arith in
    ap₂ (λ s l. (s, l)) only (encode_record_id-eq shard_id local_seq zero h ∙ omega arith)
decode_record_id-encode_record_id shard_id local_seq (suc k) h =
    let m = 2 ^ suc k in
    rw
      (
        ne→==-false (suc k) 0 (λ e. absurd (omega (arith, e))),
        bit_and-mask (suc k),
        encode_record_id-eq shard_id local_seq (suc k) h,
      )
      (ap₂ (λ s l. (s, l)) (rest local_seq shard_id m h.0) (quotient local_seq shard_id m h.0))
  where
    quotient : (l s m : ℕ) → s < m → (l * m + s) / m ≡ l
    quotient l s m h = grind arith

    rest : (l s m : ℕ) → s < m → (l * m + s) % m ≡ s
    rest l s m h = grind arith

-- Ids of shards and local numbers that fit their bits order records by local number, and those of one
-- number by shard.
pub encode_record_id-lt :
    (s t l m bits : ℕ)
    → Fits s l bits
    → Fits t m bits
    → (l < m) ⊎ ((l ≡ m) × (s < t))
    → encode_record_id s l bits < encode_record_id t m bits
encode_record_id-lt s t l m bits f g (inl less) =
    rw (encode_record_id-eq s l bits f, encode_record_id-eq t m bits g) (grind arith)
encode_record_id-lt s t l m bits f g (inr (same, less)) =
    rw (encode_record_id-eq s l bits f, encode_record_id-eq t m bits g, same) (omega arith)
