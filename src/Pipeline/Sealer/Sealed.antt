-- ===== src/Pipeline/Sealer/Sealed.antt =====
-- A round of the sealer (logdb/src/pipeline/sealer.rs) links each record to the one before it.
use native.Mathlib.Nat.{le_refl}
use lv_logdb.Prelude.{
  ℕ, zero, suc, ◌+◌, ◌-◌, ◌%◌, ◌^◌, ◌≤◌, ◌<◌, ◌≡◌, ◌≢◌, ◌⊎◌, inl, inr, refl, sym, ap, subst, ◌∙◌,
  true, false, Bytes, ◌++◌, some, arith, pow_pos, ◌==◌, ==→eq, if_intro,
}
use lv_logdb.Ring.{Ring, slot_index, published_at}
use lv_logdb.Ring.Slot.{Slot, read, is_published, write_hash}
use lv_logdb.Ring.System.{set_slot}
use lv_logdb.Ring.System.Inv.{IsRing}
use lv_logdb.Ring.System.Claims.{slot_index-inj}
use lv_logdb.Ring.System.Steps.{published-ne}
use lv_logdb.Ring.System.Slots.{set_slot-ne, set_slot_self}
use lv_logdb.Pipeline.Sealer.{blake3_keyed_chain, seal_range, seal_round}
use lv_logdb.Pipeline.Sealer.Scan.{Published, scan_published-Stops}

abbrev pub slot_of : Ring → ℕ → Slot
slot_of r q = r.slots (slot_index r q)

abbrev pub content_of : Ring → ℕ → Bytes
content_of r q = (read (slot_of r q)).content

abbrev pub hash_of : Ring → ℕ → Bytes
hash_of r q = (read (slot_of r q)).hash_n

module _ (keyed_hash : Bytes → Bytes → Bytes) (key : Bytes) where
  -- From `seq` on, `n` records of the ring have the keyed hash of the hash before and their content.
  abbrev pub IsSealed : Ring → Bytes → ℕ → ℕ → Type 0
  IsSealed r prev seq zero = Unit
  IsSealed r prev seq (suc n) =
      (hash_of r seq ≡ keyed_hash key (prev ++ content_of r seq))
      × IsSealed r (hash_of r seq) (seq + 1) n

  -- The ring after one record is sealed.
  abbrev pub seal_one : Ring → Bytes → ℕ → Ring
  seal_one r last seq =
      set_slot r seq
        (write_hash (slot_of r seq) (blake3_keyed_chain keyed_hash key last (content_of r seq)))

  -- A number that shares no slot with those that are sealed keeps its slot.
  seal_range-ne :
      (n : ℕ) (r : Ring) (last : Bytes) (seq q : ℕ)
      → ((p : ℕ) → seq ≤ p → p < seq + n → slot_index r p ≢ slot_index r q)
      → slot_of (seal_range keyed_hash key n r last seq).0 q ≡ slot_of r q
  unfolding seal_range slot_index
  seal_range-ne zero r last seq q apart = refl
  seal_range-ne (suc n) r last seq q apart =
      seal_range-ne n (seal_one r last seq)
        (blake3_keyed_chain keyed_hash key last (content_of r seq)) (seq + 1) q
        (λ p a b. apart p (omega arith) (omega arith))
      ∙ set_slot-ne r seq
          (write_hash (slot_of r seq) (blake3_keyed_chain keyed_hash key last (content_of r seq))) q
          (apart seq (le_refl seq) (omega arith))

  -- The slot of a sealed number.
  seal_range-first :
      (n : ℕ) (r : Ring) (last h : Bytes) (seq : ℕ)
      → ((p : ℕ) → seq + 1 ≤ p → p < seq + 1 + n → slot_index r p ≢ slot_index r seq)
      → slot_of (seal_range keyed_hash key n (seal_one r last seq) h (seq + 1)).0 seq
        ≡ write_hash (slot_of r seq) (blake3_keyed_chain keyed_hash key last (content_of r seq))
  unfolding slot_index
  seal_range-first n r last h seq apart =
      seal_range-ne n (seal_one r last seq) h (seq + 1) seq apart ∙ set_slot_self r seq _

  read-write_hash :
      (sl : Slot) (h : Bytes)
      → ((read (write_hash sl h)).content ≡ (read sl).content)
        × ((read (write_hash sl h)).hash_n ≡ h)
  unfolding read write_hash
  read-write_hash sl h = (refl, refl)

  seal_range-IsSealed :
      (n : ℕ) (r : Ring) (last : Bytes) (seq : ℕ)
      → ((p q : ℕ) → p ≤ q → q < p + n → slot_index r p ≡ slot_index r q → p ≡ q)
      → IsSealed (seal_range keyed_hash key n r last seq).0 last seq n
  unfolding seal_range slot_index blake3_keyed_chain
  seal_range-IsSealed zero r last seq inj = tt
  seal_range-IsSealed (suc n) r last seq inj =
      let h = blake3_keyed_chain keyed_hash key last (content_of r seq) in
      let rest =
        seal_range-IsSealed n (seal_one r last seq) h (seq + 1)
          (λ p q a b. inj p q a (omega arith)) in
      let first =
        seal_range-first n r last h seq
          (λ p a b e. omega (arith, inj seq p (omega arith) (omega arith) (sym e))) in
      let back = read-write_hash (slot_of r seq) h in
      let linked = ap (λ t. (read t).hash_n) first ∙ back.1 in
      let kept = ap (λ t. (read t).content) first ∙ back.0 in
      (
        linked ∙ sym (ap (blake3_keyed_chain keyed_hash key last) kept),
        subst
            (λ t.
              IsSealed (seal_range keyed_hash key n (seal_one r last seq) h (seq + 1)).0 t (seq + 1)
                n)
            (sym linked) rest,
      )

  -- The hash that is left is the one of the last record.
  seal_range-last :
      (n : ℕ) (r : Ring) (last : Bytes) (seq q : ℕ)
      → seq + n ≡ q
      → ((p q : ℕ) → p ≤ q → q < p + suc n → slot_index r p ≡ slot_index r q → p ≡ q)
      → hash_of (seal_range keyed_hash key (suc n) r last seq).0 q
        ≡ (seal_range keyed_hash key (suc n) r last seq).1
  unfolding seal_range slot_index
  seal_range-last zero r last seq q at inj =
      let h = blake3_keyed_chain keyed_hash key last (content_of r seq) in
      let here : q ≡ seq = omega arith in
      ap (hash_of (seal_one r last seq)) here
      ∙ ap (λ t. (read t).hash_n) (set_slot_self r seq (write_hash (slot_of r seq) h))
      ∙ (read-write_hash (slot_of r seq) h).1
  seal_range-last (suc n) r last seq q at inj =
      seal_range-last n (seal_one r last seq)
        (blake3_keyed_chain keyed_hash key last (content_of r seq)) (seq + 1) q (omega arith)
        (λ p q a b. inj p q a (omega arith))

  -- Sealing changes no content and publishes nothing.
  seal_one-keeps :
      (r : Ring) (last : Bytes) (seq q : ℕ)
      → (content_of (seal_one r last seq) q ≡ content_of r q)
        × (published_at (seal_one r last seq) q ≡ published_at r q)
  unfolding slot_index published_at is_published read write_hash
  seal_one-keeps r last seq q =
      if_intro {A = Slot}
        (λ t.
          ((read t).content ≡ content_of r q) × (is_published t q ≡ is_published (slot_of r q) q))
        (slot_index r seq == slot_index r q)
        (λ e.
          let same = ap r.slots (==→eq (slot_index r seq) (slot_index r q) e) in
          (ap (λ t. (read t).content) same, ap (λ t. is_published t q) same))
        (λ _. (refl, refl))

  seal_range-keeps :
      (n : ℕ) (r : Ring) (last : Bytes) (seq q : ℕ)
      → (content_of (seal_range keyed_hash key n r last seq).0 q ≡ content_of r q)
        × (published_at (seal_range keyed_hash key n r last seq).0 q ≡ published_at r q)
  unfolding seal_range
  seal_range-keeps zero r last seq q = (refl, refl)
  seal_range-keeps (suc n) r last seq q =
      let one = seal_one-keeps r last seq q in
      let rest =
        seal_range-keeps n (seal_one r last seq)
          (blake3_keyed_chain keyed_hash key last (content_of r seq)) (seq + 1) q in
      (rest.0 ∙ one.0, rest.1 ∙ one.1)

  IsSealed-sealed_cursor :
      (n : ℕ) (r : Ring) (cursor : ℕ) (prev : Bytes) (seq : ℕ)
      → IsSealed r prev seq n
      → IsSealed (record r { sealed_cursor = cursor }) prev seq n
  unfolding slot_index
  IsSealed-sealed_cursor zero r cursor prev seq h = tt
  IsSealed-sealed_cursor (suc n) r cursor prev seq h =
      (h.0, IsSealed-sealed_cursor n r cursor (hash_of r seq) (seq + 1) h.1)

-- What a round of the sealer from `seq` on, with its new ring, hash and number, has sealed.
pub record Sealed (keyed_hash : Bytes → Bytes → Bytes) (key : Bytes) (r : Ring) (last : Bytes)
    (seq : ℕ) (done : Ring × Bytes × ℕ) : Type 0 where
  pub onward : seq < done.2
  pub within_size : done.2 ≤ seq + r.ring_size
  pub cursor_at : done.0.sealed_cursor ≡ done.2
  pub all_published : Published r seq done.2
  pub whole_run : (published_at r done.2 ≡ false) ⊎ (done.2 ≡ seq + r.ring_size)
  pub linked : IsSealed keyed_hash key done.0 last seq (done.2 - seq)
  pub last_is : hash_of done.0 (done.2 - 1) ≡ done.1
  pub kept :
      (q : ℕ) → (content_of done.0 q ≡ content_of r q) × (published_at done.0 q ≡ published_at r q)

-- A round of the sealer on a ring between its threads, at a published number `seq` from 1 on with `seq`
-- plus the size of the ring below 2 ^ 64, returns. It moves `next_seq` and the sealed cursor to the
-- same number, over published numbers only: up to the first one that is not published, or by the
-- size of the ring. Each record between gets the keyed hash of the hash before it, followed by its
-- content, the first one's before being `last_hash`. The new `last_hash` is the hash of the last of
-- them. No record's content or publication changes.
pub seal_round-IsSealed :
    (keyed_hash : Bytes → Bytes → Bytes) (key : Bytes) {k : ℕ} {r : Ring} (v : IsRing k r)
    (last : Bytes) (seq : ℕ)
    → 1 ≤ seq
    → seq + r.ring_size < 2 ^ 64
    → published_at r seq ≡ true
    → (done : Ring × Bytes × ℕ) × (seal_round keyed_hash key r last seq ≡ some done)
      × Sealed keyed_hash key r last seq done
unfolding seal_round slot_index published_at
seal_round-IsSealed keyed_hash key {k} {r} v last seq pos small on =
    elim (scan_published-Stops r seq pos (omega (arith, v.size_eq, pow_pos k)) small) [
      | inl off ↦ absurd (published-ne r seq seq off.0 on refl)
      | inr found ↦
          let hi = found.0 in
          let stops = found.3 in
          let n = hi - seq in
          let count : hi + 1 - seq ≡ suc n = omega (arith, found.1) in
          let up : (hi + 1) % 2 ^ 64 ≡ hi + 1 = omega arith in
          let at : hi + 1 - 1 ≡ hi = omega arith in
          let body = seal_range keyed_hash key (suc n) r last seq in
          let apart : (p q : ℕ) → p ≤ q → q < p + suc n → slot_index r p ≡ slot_index r q → p ≡ q =
            λ p q a b e. slot_index-inj v p q a (omega (arith, v.size_eq, found.1)) e in
          (
            (record body.0 { sealed_cursor = hi + 1 }, body.1, hi + 1),
            rw (seal_round, found.2, count)
                (ap (λ t. some (record body.0 { sealed_cursor = t }, body.1, t)) up),
            record {
              onward = omega (arith, found.1);
              within_size = omega arith;
              cursor_at = refl;
              all_published = stops.1;
              whole_run = stops.3;
              linked =
                  IsSealed-sealed_cursor keyed_hash key (hi + 1 - seq) body.0 (hi + 1) last seq
                    (rw count (seal_range-IsSealed keyed_hash key (suc n) r last seq apart));
              last_is = rw at (seal_range-last keyed_hash key n r last seq hi (omega arith) apart);
              kept = seal_range-keeps keyed_hash key (suc n) r last seq;
            },
          )
    ]
