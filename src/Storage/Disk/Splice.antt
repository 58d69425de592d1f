-- ===== src/Storage/Disk/Splice.antt =====
-- Writes into the middle of a file.
use lv_logdb.Prelude.{
  ℕ, suc, ◌+◌, ◌-◌, ◌≡◌, refl, ap, ◌∙◌, [], ◌∷◌, ◌++◌, Bytes, length, arith, drop-append,
}
use lv_logdb.Storage.Disk.{splice}

splice-cons :
    (x : ℕ) (content bytes : Bytes) (offset : ℕ)
    → splice (x ∷ content) (suc offset) bytes ≡ x ∷ splice content offset bytes
unfolding splice
splice-cons x content bytes offset =
    let gap : suc offset - suc (length content) ≡ offset - length content = omega arith in
    let end : suc offset + length bytes ≡ suc (offset + length bytes) = omega arith in
    rw (gap, end) refl

-- What stands in front of the offset stays.
pub splice-skip :
    (front content bytes : Bytes) (n offset : ℕ)
    → length front ≡ n
    → splice (front ++ content) (n + offset) bytes ≡ front ++ splice content offset bytes
splice-skip [] content bytes n offset e = let z : n + offset ≡ offset = omega arith in rw z refl
splice-skip (x ∷ front) content bytes n offset e =
    let z : n + offset ≡ suc (length front + offset) = omega arith in
    rw z (
      splice-cons x (front ++ content) bytes (length front + offset)
      ∙ ap (λ t. x ∷ t) (splice-skip front content bytes (length front) offset refl))

-- Bytes of the same length take the place of others.
pub splice-here :
    (old rest bytes : Bytes)
    → length old ≡ length bytes
    → splice (old ++ rest) 0 bytes ≡ bytes ++ rest
unfolding splice
splice-here old rest bytes e =
    let z : 0 + length bytes ≡ length bytes = omega arith in
    rw z (ap (λ t. bytes ++ t) (drop-append (length bytes) old rest e))
