-- ===== src/Prelude/Bits.antt =====
-- Shifts, masks and unions of bits, by the digits that the native operations stand for.
use Prim.Native.Nat.{
  ℕ, zero, suc, ◌+◌, ◌-◌, ◌*◌, ◌/◌, ◌%◌, ◌^◌, ◌≤◌, ◌<◌, min, max, bit_and, bit_or, digits,
  bit_and-bitwise, bit_or-bitwise,
}
use mathlib.Core.Path.{◌≡◌, refl, sym, ap, ◌∙◌}
use native.Mathlib.Nat.{pow-suc, mul_comm, div-add-mod, div-div-eq-div-mul}
use native.Mathlib.Omega.{arith}

-- The digits of an operation, which `start` gives at the end and `join` at each place, are the same
-- for any fuel from the first number on.
module _ (start : ℕ → ℕ) (join : ℕ → ℕ → ℕ) where
  end_digits : (fuel y : ℕ) → digits start join fuel 0 y ≡ start y
  end_digits zero y = refl
  end_digits (suc fuel) y = refl

  same_digits :
      (fuel more x y : ℕ)
      → x ≤ more
      → x ≤ fuel
      → digits start join more x y ≡ digits start join fuel x y
  same_digits fuel more zero y h k = end_digits more y ∙ sym (end_digits fuel y)
  same_digits zero more (suc x) y h k = absurd (omega arith)
  same_digits (suc fuel) zero (suc x) y h k = absurd (omega arith)
  same_digits (suc fuel) (suc more) (suc x) y h k =
      let halves = same_digits fuel more (suc x / 2) (y / 2) (omega arith) (omega arith) in
      omega (arith, halves)

no_bits-and : (y : ℕ) → bit_and 0 y ≡ 0
no_bits-and y = bit_and-bitwise 0 y ∙ end_digits (λ _. 0) min 0 y

no_bits-or : (y : ℕ) → bit_or 0 y ≡ y
no_bits-or y = bit_or-bitwise 0 y ∙ end_digits (λ z. z) max 0 y

-- The lowest digit of both numbers, and the rest.
lowest_digit-and : (x y : ℕ) → bit_and x y ≡ bit_and (x / 2) (y / 2) * 2 + min (x % 2) (y % 2)
lowest_digit-and zero y = omega (arith, no_bits-and y, no_bits-and (y / 2))
lowest_digit-and (suc x) y =
    let halves =
      same_digits (λ _. 0) min (suc x / 2) x (suc x / 2) (y / 2) (omega arith) (omega arith) in
    omega (arith, halves, bit_and-bitwise (suc x / 2) (y / 2), bit_and-bitwise (suc x) y)

lowest_digit-or : (x y : ℕ) → bit_or x y ≡ bit_or (x / 2) (y / 2) * 2 + max (x % 2) (y % 2)
lowest_digit-or zero y = omega (arith, no_bits-or y, no_bits-or (y / 2))
lowest_digit-or (suc x) y =
    let halves =
      same_digits (λ z. z) max (suc x / 2) x (suc x / 2) (y / 2) (omega arith) (omega arith) in
    omega (arith, halves, bit_or-bitwise (suc x / 2) (y / 2), bit_or-bitwise (suc x) y)

-- What a number with no bits does to another, for numbers up to a bound.
or_nothing : (bound x : ℕ) → x ≤ bound → bit_or x 0 ≡ x
or_nothing bound zero h = no_bits-or 0
or_nothing zero (suc x) h = absurd (omega arith)
or_nothing (suc bound) (suc x) h =
    let half = or_nothing bound (suc x / 2) (omega arith) in
    omega (arith, half, lowest_digit-or (suc x) 0)

and_nothing : (bound x : ℕ) → x ≤ bound → bit_and x 0 ≡ 0
and_nothing bound zero h = no_bits-and 0
and_nothing zero (suc x) h = absurd (omega arith)
and_nothing (suc bound) (suc x) h =
    let half = and_nothing bound (suc x / 2) (omega arith) in
    omega (arith, half, lowest_digit-and (suc x) 0)

-- `(a << k) | b` for `b` of `k` bits
pub bit_or-shift : (k a b : ℕ) → b < 2 ^ k → bit_or (a * 2 ^ k) b ≡ a * 2 ^ k + b
bit_or-shift zero a b h =
    let z : b ≡ 0 = omega arith in
    let o : a * 2 ^ 0 ≡ a = omega arith in rw (z, o) (or_nothing a a (omega arith) ∙ omega arith)
bit_or-shift (suc k) a b h =
    let p = pow-suc 2 k in
    let e : a * 2 ^ suc k ≡ a * 2 ^ k * 2 = rw p (omega arith) in
    let half : a * 2 ^ suc k / 2 ≡ a * 2 ^ k = omega (arith, e) in
    omega (
      arith,
      e,
      lowest_digit-or (a * 2 ^ suc k) b,
      ap (λ t. bit_or t (b / 2)) half,
      bit_or-shift k a (b / 2) (omega (arith, p)),
    )

pub pow_pos : (k : ℕ) → 0 < 2 ^ k
pow_pos zero = omega arith
pow_pos (suc k) = omega (arith, pow_pos k, pow-suc 2 k)

-- The lowest digit of a remainder.
mod_digit : (n m : ℕ) → n % (m * 2) ≡ n / 2 % m * 2 + n % 2
mod_digit n m =
    let q : n / (m * 2) ≡ n / 2 / m =
      ap (λ t. n / t) (mul_comm m 2) ∙ sym (div-div-eq-div-mul n 2 m) in
    omega (arith, ap (λ t. m * t) q, div-add-mod n (m * 2), div-add-mod (n / 2) m)

-- `a & ((1 << k) - 1)`
pub bit_and-mask : (k a : ℕ) → bit_and a (2 ^ k - 1) ≡ a % 2 ^ k
bit_and-mask zero a = and_nothing a a (omega arith) ∙ omega arith
bit_and-mask (suc k) a =
    let p = pow-suc 2 k in
    let half : (2 ^ suc k - 1) / 2 ≡ 2 ^ k - 1 = omega (arith, p, pow_pos k) in
    let low : (2 ^ suc k - 1) % 2 ≡ 1 = omega (arith, p, pow_pos k) in
    omega (
      arith,
      lowest_digit-and a (2 ^ suc k - 1),
      ap (bit_and (a / 2)) half,
      low,
      bit_and-mask k (a / 2),
      mod_digit a (2 ^ k),
      ap (λ t. a % t) p,
    )
