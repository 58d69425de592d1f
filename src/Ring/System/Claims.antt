-- ===== src/Ring/System/Claims.antt =====
-- Arithmetic of the ring (logdb/src/ring/mod.rs): what the tests of `claim` and `claim_batch` show,
-- and when two numbers share a slot.
use native.Mathlib.Nat.{div-add-mod}
use native.Mathlib.Decide.{dec_lt}
use lv_logdb.Prelude.{
  ℕ, ◌+◌, ◌/◌, ◌%◌, ◌^◌, ◌≤◌, ◌<◌, ◌≡◌, ◌⊎◌, inl, inr, ◌∙◌, sym, refl, ltb-false→le, Bool, true,
  false, arith, bit_and-mask, if◌then◌else◌,
}
use lv_logdb.Ring.{Ring, claim_full, claim_batch_full, slot_index, watermark, in_flight}
use lv_logdb.Ring.System.{full}
use lv_logdb.Ring.System.Inv.{IsRing}

mod_inj : (m p q : ℕ) → p ≤ q → q < p + m → p % m ≡ q % m → p ≡ q
mod_inj m p q le lt e = elim (dec_lt (p / m) (q / m)) [
  | yes less ↦ absurd (grind (arith, div-add-mod p m, div-add-mod q m))
  | no same ↦ grind (arith, div-add-mod p m, div-add-mod q m)
]

pub slot_index-eq : {k : ℕ} {r : Ring} → IsRing k r → (q : ℕ) → slot_index r q ≡ q % 2 ^ k
unfolding slot_index
slot_index-eq {k} v q = rw v.mask_eq (bit_and-mask k q)

-- Two numbers less than a ring apart that share a slot are one.
pub slot_index-inj :
    {k : ℕ} {r : Ring}
    → IsRing k r
    → (p q : ℕ) → p ≤ q
    → q < p + 2 ^ k
    → slot_index r p ≡ slot_index r q
    → p ≡ q
slot_index-inj {k} v p q le lt e =
    mod_inj (2 ^ k) p q le lt (sym (slot_index-eq v p) ∙ e ∙ slot_index-eq v q)

-- The watermark of two loads is the first of them, since the sealer is ahead of the committer.
pub watermark-eq :
    (hashed : Bool) (c sealed committed : ℕ)
    → c ≤ committed
    → committed ≤ (if hashed then sealed else committed)
    → watermark hashed c sealed ≡ c
watermark-eq true c sealed committed h k = omega arith
watermark-eq false c sealed committed h k = refl

room :
    (ring_size : ℕ) (batch : Bool) (n seq c : ℕ)
    → ring_size ≤ 2 ^ 62
    → (batch ≡ false → n ≡ 1)
    → n ≤ ring_size
    → seq < 2 ^ 64
    → seq ≤ c + ring_size
    → c ≤ seq
    → (if batch then claim_batch_full ring_size n seq c else claim_full ring_size seq c) ≡ false
    → seq + n ≤ c + ring_size
unfolding claim_full claim_batch_full
room size true n seq c small single few bound near ahead passed =
    omega (arith, ltb-false→le size ((in_flight seq c + n) % 2 ^ 64) passed)
room size false n seq c small single few bound near ahead passed =
    let one = single refl in let less : in_flight seq c < size = ground arith in omega arith

-- A test that passes has seen room, or an old cursor.
pub full-false :
    {k : ℕ} {r : Ring} (v : IsRing k r) (batch : Bool) (n seq c : ℕ)
    → (batch ≡ false → n ≡ 1)
    → n ≤ r.ring_size
    → seq < 2 ^ 64
    → seq ≤ c + r.ring_size
    → c ≤ r.committed_cursor
    → full r batch n seq (watermark r.hash_enabled c r.sealed_cursor) ≡ false
    → (seq + n ≤ r.committed_cursor + r.ring_size) ⊎ (seq < r.committed_cursor)
full-false {k} {r} v batch n seq c single few small near old passed = elim (dec_lt seq c) [
  | yes behind ↦ inr (omega arith)
  | no ahead ↦
      let wm =
        watermark-eq r.hash_enabled c r.sealed_cursor r.committed_cursor old v.committed_le in
      inl (
        omega (
          arith,
          room r.ring_size batch n seq c (omega (arith, v.size_eq)) single few small near
              (omega arith) (rw wm at passed),
        ))
]
