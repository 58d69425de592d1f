-- ===== src/Prelude/ByteStrings.antt =====
-- Byte strings as lists of numbers: little-endian integers, and a field of a fixed layout.
use Prim.Native.Nat.{ℕ, zero, suc, ◌+◌, ◌-◌, ◌*◌, ◌/◌, ◌%◌, ◌^◌, ◌<◌}
use mathlib.Core.Path.{◌≡◌, refl, sym, ap, ◌∙◌}
use mathlib.Core.List.{List, [], ◌∷◌, ◌++◌, append_assoc, append-nil}
use mathlib.Core.Option.{some, some-injective}
use native.Mathlib.Nat.{pow-suc}
use native.Mathlib.Omega.{arith}
use mathlib.Core.Bool.{Bool, true, false, ◌&&◌}
use lv_logdb.Prelude.Tests.{◌==◌}
use lv_logdb.Prelude.Lists.{
  length, get_elem?, get_or, slice, concat, All, length-append, take-append, drop-append, drop-add,
}

abbrev pub Bytes : Type 0
Bytes = List ℕ

abbrev pub IsByte : ℕ → Type 0
IsByte b = b < 256

-- `n.to_le_bytes()` of an integer of `w` bytes
unfoldable pub to_le : ℕ → ℕ → Bytes
to_le zero n = []
to_le (suc w) n = n % 256 ∷ to_le w (n / 256)

-- `from_le_bytes`
unfoldable pub from_le : Bytes → ℕ
from_le [] = 0
from_le (b ∷ bs) = b + 256 * from_le bs

pub length-to_le : (w n : ℕ) → length (to_le w n) ≡ w
unfolding to_le
length-to_le zero n = refl
length-to_le (suc w) n = ap suc (length-to_le w (n / 256))

-- A value that fits survives.
pub from_le-to_le : (w n : ℕ) → n < 256 ^ w → from_le (to_le w n) ≡ n
unfolding to_le from_le
from_le-to_le zero n h = omega arith
from_le-to_le (suc w) n h =
    omega (arith, from_le-to_le w (n / 256) (omega (arith, pow-suc 256 w)), pow-suc 256 w)

pub from_le-lt : (bs : Bytes) → All IsByte bs → from_le bs < 256 ^ length bs
unfolding from_le
from_le-lt [] h = omega arith
from_le-lt (b ∷ bs) h = omega (arith, from_le-lt bs h.1, h.0, pow-suc 256 (length bs))

-- The byte strings `fs` have the lengths `ns`.
abbrev pub Layout : List Bytes → List ℕ → Type 0
Layout [] [] = Unit
Layout [] (n ∷ ns) = ⊥
Layout (f ∷ fs) [] = ⊥
Layout (f ∷ fs) (n ∷ ns) = (length f ≡ n) × Layout fs ns

-- Where the field `k` of a layout begins.
abbrev pub offset : ℕ → List ℕ → ℕ
offset k [] = 0
offset zero (n ∷ ns) = 0
offset (suc k) (n ∷ ns) = n + offset k ns

slice-here : (xs ys : Bytes) (n : ℕ) → length xs ≡ n → slice (xs ++ ys) 0 n ≡ xs
slice-here xs ys n e = let z : n - 0 ≡ n = omega arith in rw z (take-append n xs ys e)

slice-skip :
    (xs ys : Bytes) (n a b : ℕ)
    → length xs ≡ n
    → slice (xs ++ ys) (n + a) (n + a + b) ≡ slice ys a (a + b)
slice-skip xs ys n a b e =
    let z : n + a + b - (n + a) ≡ a + b - a = omega arith in
    rw (z, drop-add n a (xs ++ ys), drop-append n xs ys e)

-- A field is read back at its offset, whatever follows.
pub slice-field :
    (fs : List Bytes) (ns : List ℕ) (rest : Bytes)
    → Layout fs ns
    → (k : ℕ) {f : Bytes} → get_elem? fs k ≡ some f
    → slice (concat fs ++ rest) (offset k ns) (offset k ns + get_or ns k 0) ≡ f
slice-field [] ns rest l k e = cc
slice-field (f ∷ fs) [] rest l k e = absurd l
slice-field (f ∷ fs) (n ∷ ns) rest l zero {f = g} e =
    let z : 0 + n ≡ n = omega arith in
    rw (z, append_assoc) (slice-here f (concat fs ++ rest) n l.0 ∙ some-injective f g e)
slice-field (f ∷ fs) (n ∷ ns) rest l (suc k) e =
    ap (λ t. slice t (n + offset k ns) (n + offset k ns + get_or ns k 0))
      (append_assoc f (concat fs) rest)
    ∙ slice-skip f (concat fs ++ rest) n (offset k ns) (get_or ns k 0) l.0
    ∙ slice-field fs ns rest l.1 k e

pub length-concat-field :
    (fs : List Bytes) (ns : List ℕ) → Layout fs ns → length (concat fs) ≡ offset (length ns) ns
length-concat-field [] [] l = refl
length-concat-field [] (n ∷ ns) l = absurd l
length-concat-field (f ∷ fs) [] l = absurd l
length-concat-field (f ∷ fs) (n ∷ ns) l =
    omega (arith, length-append f (concat fs), length-concat-field fs ns l.1, l.0)

-- `uN::from_le_bytes([buf[i], …])` of `w` bytes
abbrev pub int_at : ℕ → Bytes → ℕ → ℕ
int_at w buf i = from_le (slice buf i (i + w))

pub slice-field_exact :
    (fs : List Bytes) (ns : List ℕ)
    → Layout fs ns
    → (k : ℕ) {f : Bytes} → get_elem? fs k ≡ some f
    → slice (concat fs) (offset k ns) (offset k ns + get_or ns k 0) ≡ f
slice-field_exact fs ns l k e =
    ap (λ t. slice t (offset k ns) (offset k ns + get_or ns k 0)) (sym (append-nil (concat fs)))
    ∙ slice-field fs ns [] l k e

pub concat-append : (fs gs : List Bytes) → concat (fs ++ gs) ≡ concat fs ++ concat gs
concat-append [] gs = refl
concat-append (f ∷ fs) gs =
    ap (λ t. f ++ t) (concat-append fs gs) ∙ sym (append_assoc f (concat fs) (concat gs))

-- `==` on byte strings
unfoldable pub bytes_eq : Bytes → Bytes → Bool
bytes_eq [] [] = true
bytes_eq [] (y ∷ ys) = false
bytes_eq (x ∷ xs) [] = false
bytes_eq (x ∷ xs) (y ∷ ys) = (x == y) && bytes_eq xs ys

pub bytes_eq_refl : (xs : Bytes) → bytes_eq xs xs ≡ true
unfolding bytes_eq
bytes_eq_refl [] = refl
bytes_eq_refl (x ∷ xs) = ground (arith, bytes_eq_refl xs)

pub bytes_eq→eq : (xs ys : Bytes) → bytes_eq xs ys ≡ true → xs ≡ ys
unfolding bytes_eq
bytes_eq→eq [] [] h = refl
bytes_eq→eq [] (y ∷ ys) h = cc
bytes_eq→eq (x ∷ xs) [] h = cc
bytes_eq→eq (x ∷ xs) (y ∷ ys) h = ground (arith, bytes_eq→eq xs ys)
