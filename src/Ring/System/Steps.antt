-- ===== src/Ring/System/Steps.antt =====
-- How the parts of the invariant of a ring (logdb/src/ring) pass from a state to the next.
use native.Mathlib.Decide.{dec_le}
use lv_logdb.Prelude.{
  ℕ, ◌+◌, ◌%◌, ◌^◌, ◌≤◌, ◌<◌, ◌≡◌, ◌≢◌, ◌⊎◌, inl, inr, sym, ap, ◌∙◌, true, false, arith, ◌==◌,
  if_intro, ==→eq, ==-refl, ne→==-false, Bool-cases,
}
use lv_logdb.Ring.{Ring, slot_index, published_at}
use lv_logdb.Ring.Slot.{Slot, is_published}
use lv_logdb.Ring.System.{
  Payload, Pc, idle, loaded, half_loaded, passed, owns, wrote, System, update, goto, set_slot,
}
use lv_logdb.Ring.System.Inv.{Holds, Owned, IsRing, Pending, PcOk, Inv}
use lv_logdb.Ring.System.Claims.{slot_index-inj}

-- What a thread knows passes to another ring, where its own numbers are still pending and its slot
-- still written.
module _ (r r' : Ring) (w w' : ℕ → Payload) where
  pub PcOk-mono :
      (p : Pc)
      → r'.ring_size ≡ r.ring_size
      → r.committed_cursor ≤ r'.committed_cursor
      → r.producer_cursor ≤ r'.producer_cursor
      → ((q : ℕ) → Owned p q → Pending r q → Pending r' q)
      → ((q : ℕ)
          → Owned p q
          → Holds (r.slots (slot_index r q)) (w q)
          → Holds (r'.slots (slot_index r' q)) (w' q))
      → PcOk r w p
      → PcOk r' w' p
  PcOk-mono idle e c u pend holds h = tt
  PcOk-mono (loaded seq n) e c u pend holds h = omega arith
  PcOk-mono (half_loaded seq n d) e c u pend holds h = omega arith
  PcOk-mono (passed seq n) e c u pend holds h = (h.0, room h.1)
    where
      room :
          (seq + n ≤ r.committed_cursor + r.ring_size) ⊎ (seq < r.committed_cursor)
          → (seq + n ≤ r'.committed_cursor + r'.ring_size) ⊎ (seq < r'.committed_cursor)
      room (inl near) = inl (omega arith)
      room (inr old) = inr (omega arith)
  PcOk-mono (owns lo hi) e c u pend holds h = (h.0, omega arith, λ q a b. pend q (a, b) (h.2 q a b))
  PcOk-mono (wrote lo hi) e c u pend holds h =
      (h.0, omega arith, λ q a b. pend q (a, b) (h.2 q a b), holds lo (omega arith, h.0) h.3)

-- A thread's numbers are pending, and below the cursor.
pub Owned-Pending :
    (r : Ring) (w : ℕ → Payload) (p : Pc) (q : ℕ)
    → PcOk r w p
    → Owned p q
    → Pending r q × (q < r.producer_cursor)
Owned-Pending r w idle q h o = elim o [ ]
Owned-Pending r w (loaded _ _) q h o = elim o [ ]
Owned-Pending r w (half_loaded _ _ _) q h o = elim o [ ]
Owned-Pending r w (passed _ _) q h o = elim o [ ]
Owned-Pending r w (owns lo hi) q h o = (h.2 q o.0 o.1, omega arith)
Owned-Pending r w (wrote lo hi) q h o = (h.2 q o.0 o.1, omega arith)

pub published-ne : (r : Ring) (p q : ℕ) → published_at r p ≡ false → published_at r q ≡ true → p ≢ q
published-ne r p q off on e = cc

module _ {A : Type 0} (f : ℕ → A) (i : ℕ) (a : A) where
  pub update_self : update f i a i ≡ a
  update_self = rw (==-refl i)

  pub update_ne : (j : ℕ) → i ≢ j → update f i a j ≡ f j
  update_ne j h = rw (ne→==-false i j h)

-- Who owns a number after one thread has moved.
Owned-update :
    (pc : ℕ → Pc) (i : ℕ) (p : Pc) (j q : ℕ)
    → Owned (update pc i p j) q
    → ((i ≡ j) × Owned p q) ⊎ Owned (pc j) q
Owned-update pc i p j q h = elim (Bool-cases (i == j)) [
  | inl same ↦ inl (==→eq i j same, rw same at h)
  | inr other ↦ inr (rw other at h)
]

-- A thread that comes to own only what no other thread owns leaves the owners apart.
pub exclusive_join :
    (pc : ℕ → Pc) (i : ℕ) (p : Pc)
    → ((j q : ℕ) → Owned p q → Owned (pc j) q → i ≡ j)
    → ((i j q : ℕ) → Owned (pc i) q → Owned (pc j) q → i ≡ j)
    → (a b q : ℕ) → Owned (update pc i p a) q
    → Owned (update pc i p b) q
    → a ≡ b
exclusive_join pc i p new old a b q ha hb =
    join (Owned-update pc i p a q ha) (Owned-update pc i p b q hb)
  where
    join : ((i ≡ a) × Owned p q) ⊎ Owned (pc a) q → ((i ≡ b) × Owned p q) ⊎ Owned (pc b) q → a ≡ b
    join (inl x) (inl y) = sym x.0 ∙ y.0
    join (inl x) (inr y) = sym x.0 ∙ new b q x.1 y
    join (inr x) (inl y) = sym (new a q y.1 x) ∙ y.0
    join (inr x) (inr y) = old a b q x y

-- A thread that comes to own no more than it did is one.
pub exclusive_update :
    (pc : ℕ → Pc) (i : ℕ) (p : Pc)
    → ((q : ℕ) → Owned p q → Owned (pc i) q)
    → ((i j q : ℕ) → Owned (pc i) q → Owned (pc j) q → i ≡ j)
    → (a b q : ℕ) → Owned (update pc i p a) q
    → Owned (update pc i p b) q
    → a ≡ b
exclusive_update pc i p sub old = exclusive_join pc i p (λ j q o. old i j q (sub q o)) old

-- A thread that owns nothing moves, and nothing else changes.
pub goto-Inv :
    {k : ℕ} {s : System}
    → Inv k s
    → (i : ℕ) (p : Pc) → PcOk s.ring s.written p
    → ((q : ℕ) → Owned p q → Owned (s.pc i) q)
    → Inv k (goto s i p)
goto-Inv {s = s} v i p h sub = record {
  ring_ok = v.ring_ok;
  pc_ok = λ j. if_intro (PcOk s.ring s.written) (i == j) (λ _. h) (λ _. v.pc_ok j);
  exclusive = exclusive_update s.pc i p sub v.exclusive;
  readable = v.readable;
}

module _ {k : ℕ} {r : Ring} (v : IsRing k r) where
  -- A published number lies below the cursor.
  pub published_at-lt : (q : ℕ) → q + 1 < 2 ^ 64 → published_at r q ≡ true → q < r.producer_cursor
  unfolding published_at is_published
  published_at-lt q small h =
      let stamp = ==→eq ((r.slots (slot_index r q)).sequence) ((q + 1) % 2 ^ 64) h in
      omega (arith, v.stamps (slot_index r q))

  -- Two numbers between the frontier and the cursor do not share a slot.
  pub slot_index-ne :
      (p q : ℕ)
      → r.committed_cursor ≤ p
      → p < r.producer_cursor
      → r.committed_cursor ≤ q
      → q < r.producer_cursor
      → p ≢ q
      → slot_index r p ≢ slot_index r q
  slot_index-ne p q a b c d ne e = order (dec_le p q)
    where
      order : Dec (p ≤ q) → ⊥
      order (yes le) = ne (slot_index-inj v p q le (omega (arith, v.window)) e)
      order (no gt) =
          ne (sym (slot_index-inj v q p (omega arith) (omega (arith, v.window)) (sym e)))

  -- A write of a slot that keeps its stamp publishes nothing and hides nothing.
  pub published_at-set_slot :
      (lo : ℕ) (sl : Slot)
      → sl.sequence ≡ (r.slots (slot_index r lo)).sequence
      → (q : ℕ) → published_at (set_slot r lo sl) q ≡ published_at r q
  unfolding published_at is_published slot_index
  published_at-set_slot lo sl e q = elim (Bool-cases (slot_index r lo == slot_index r q)) [
    | inl same ↦ rw same (
        ap (λ t. t == (q + 1) % 2 ^ 64)
          (e ∙ ap (λ t. (r.slots t).sequence) (==→eq (slot_index r lo) (slot_index r q) same)))
    | inr other ↦ rw other
  ]

  pub stamps_set_slot :
      (lo : ℕ) (sl : Slot)
      → sl.sequence ≤ r.producer_cursor
      → (i : ℕ) → ((set_slot r lo sl).slots i).sequence ≤ r.producer_cursor
  stamps_set_slot lo sl h i =
      if_intro {A = Slot} (λ t. t.sequence ≤ r.producer_cursor) (slot_index r lo == i) (λ _. h)
        (λ _. v.stamps i)

  pub IsRing-set_slot :
      (lo : ℕ) (sl : Slot) → sl.sequence ≤ r.producer_cursor → IsRing k (set_slot r lo sl)
  IsRing-set_slot lo sl h = record {
    mask_eq = v.mask_eq;
    size_eq = v.size_eq;
    size_small = v.size_small;
    small = v.small;
    committed_le = v.committed_le;
    frontier_le = v.frontier_le;
    window = v.window;
    stamps = stamps_set_slot lo sl h;
  }
