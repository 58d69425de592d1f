-- ===== src/Ring/System/Slots.antt =====
-- The steps of a ring (logdb/src/ring/slot.rs) that write a slot keep the invariant.
use native.Mathlib.Nat.{le_refl}
use lv_logdb.Prelude.{
  ℕ, ◌+◌, ◌^◌, ◌≤◌, ◌<◌, ◌≡◌, ◌≢◌, inl, inr, refl, sym, ap, subst, ◌∙◌, arith, Bytes, length, ◌==◌,
  if_intro, ==→eq, ==-refl, ne→==-false, ==-false→ne, Bool-cases, [],
}
use lv_logdb.Ring.{Ring, slot_index, published_at}
use lv_logdb.Ring.Slot.{Slot, read, producer_write, publish, write_hash}
use lv_logdb.Ring.Slot.Read.{read-producer_write}
use lv_logdb.Ring.System.{Payload, owns, wrote, System, update, goto, set_slot, set_ring}
use lv_logdb.Ring.System.Inv.{Holds, Owned, Pending, PcOk, Inv}
use lv_logdb.Ring.System.Steps.{
  PcOk-mono, update_self, update_ne, exclusive_update, Owned-Pending, published-ne, slot_index-ne,
  published_at-set_slot, IsRing-set_slot,
}

-- A slot that another number uses stays as it was.
pub set_slot-ne :
    (r : Ring) (lo : ℕ) (sl : Slot) (q : ℕ)
    → slot_index r lo ≢ slot_index r q
    → (set_slot r lo sl).slots (slot_index (set_slot r lo sl) q) ≡ r.slots (slot_index r q)
unfolding slot_index
set_slot-ne r lo sl q ne = rw (ne→==-false (slot_index r lo) (slot_index r q) ne)

pub set_slot_self :
    (r : Ring) (lo : ℕ) (sl : Slot)
    → (set_slot r lo sl).slots (slot_index (set_slot r lo sl) lo) ≡ sl
unfolding slot_index
set_slot_self r lo sl = rw (==-refl (slot_index r lo))

sequence-producer_write :
    (sl : Slot) (p : Payload) → (producer_write sl p.id p.time p.content).sequence ≡ sl.sequence
unfolding producer_write
sequence-producer_write sl p = refl

producer_write-Holds :
    (sl : Slot) (p : Payload)
    → length p.content < 2 ^ 32
    → Holds (producer_write sl p.id p.time p.content) p
producer_write-Holds sl p short =
    let e = (read-producer_write sl p.id p.time p.content [] 0 short).0 in
    (ap (λ t. t.record_id) e, ap (λ t. t.timestamp_ns) e, ap (λ t. t.content) e)

read-publish : (sl : Slot) (seq : ℕ) (p : Payload) → Holds sl p → Holds (publish sl seq) p
unfolding publish read
read-publish sl seq p h = h

publish-stamp : (sl : Slot) (seq bound : ℕ) → seq < bound → (publish sl seq).sequence ≤ bound
unfolding publish
publish-stamp sl seq bound h = omega arith

module _ {k : ℕ} {s : System} (v : Inv k s) where
  -- The sealer's write changes no content.
  pub hash-Inv :
      (q : ℕ) (h : Bytes)
      → Inv k (set_ring s (set_slot s.ring q (write_hash (s.ring.slots (slot_index s.ring q)) h)))
  unfolding write_hash read slot_index
  hash-Inv q h =
      let sl : Slot = write_hash (s.ring.slots (slot_index s.ring q)) h in
      let r' = set_slot s.ring q sl in
      let same = published_at-set_slot v.ring_ok q sl refl in
      let holds : (p : ℕ)
          → Holds (s.ring.slots (slot_index s.ring p)) (s.written p)
          → Holds (r'.slots (slot_index r' p)) (s.written p) =
        λ p old.
          if_intro {A = Slot} (λ t. Holds t (s.written p))
            (slot_index s.ring q == slot_index s.ring p)
            (λ e. rw (==→eq (slot_index s.ring q) (slot_index s.ring p) e) old) (λ _. old) in
      record {
        ring_ok = IsRing-set_slot v.ring_ok q sl (v.ring_ok.stamps (slot_index s.ring q));
        pc_ok = λ j.
            PcOk-mono s.ring r' s.written s.written (s.pc j) refl (le_refl _) (le_refl _)
              (λ p _ pending. (pending.0, same p ∙ pending.1)) (λ p _. holds p) (v.pc_ok j);
        exclusive = v.exclusive;
        readable = λ p a b c. holds p (v.readable p a b (sym (same p) ∙ c));
      }

  -- The number of a thread shares its slot with no other number in use.
  apart :
      (lo q : ℕ)
      → Pending s.ring lo × (lo < s.ring.producer_cursor)
      → s.ring.committed_cursor ≤ q
      → q < s.ring.producer_cursor
      → lo ≢ q
      → slot_index s.ring lo ≢ slot_index s.ring q
  apart lo q h a b ne =
      slot_index-ne v.ring_ok lo q (omega (arith, v.ring_ok.committed_le, h.0.0)) h.1 a b ne

  -- Nor with a number of another thread.
  others :
      (i j lo q : ℕ)
      → Owned (s.pc i) lo
      → i ≢ j
      → Owned (s.pc j) q
      → (lo ≢ q) × (slot_index s.ring lo ≢ slot_index s.ring q)
  others i j lo q oi ne oj =
      let differ : lo ≢ q = λ e. ne (v.exclusive i j q (rw e at oi) oj) in
      let hq = Owned-Pending s.ring s.written (s.pc j) q (v.pc_ok j) oj in
      (
        differ,
        apart lo q (Owned-Pending s.ring s.written (s.pc i) lo (v.pc_ok i) oi)
            (omega (arith, v.ring_ok.committed_le, hq.0.0)) hq.1 differ,
      )

  pub write-Inv :
      (i lo hi : ℕ) (p : Payload)
      → s.pc i ≡ owns lo hi
      → lo < hi
      → length p.content < 2 ^ 32
      → Inv k (record s {
        ring =
            set_slot s.ring lo
              (producer_write (s.ring.slots (slot_index s.ring lo)) p.id p.time p.content);
        pc = update s.pc i (wrote lo hi);
        written = update s.written lo p;
      })
  unfolding slot_index
  write-Inv i lo hi p at_i less short =
      let before : Slot = s.ring.slots (slot_index s.ring lo) in
      let sl : Slot = producer_write before p.id p.time p.content in
      let r' = set_slot s.ring lo sl in
      let same = published_at-set_slot v.ring_ok lo sl (sequence-producer_write before p) in
      let mine : PcOk s.ring s.written (owns lo hi) =
        subst (PcOk s.ring s.written) at_i (v.pc_ok i) in
      let mine_lo : Owned (s.pc i) lo = rw at_i (le_refl lo, less) in
      let pend : (q : ℕ) → Pending s.ring q → Pending r' q = λ q h. (h.0, same q ∙ h.1) in
      let keeps : (q : ℕ)
          → lo ≢ q
          → slot_index s.ring lo ≢ slot_index s.ring q
          → Holds (s.ring.slots (slot_index s.ring q)) (s.written q)
          → Holds (r'.slots (slot_index r' q)) (update s.written lo p q) =
        λ q ne apart h. rw (set_slot-ne s.ring lo sl q apart, update_ne s.written lo p q ne) h in
      record {
        ring_ok =
            IsRing-set_slot v.ring_ok lo sl
              (rw (sequence-producer_write before p) (v.ring_ok.stamps (slot_index s.ring lo)));
        pc_ok = λ j.
            if_intro (PcOk r' (update s.written lo p)) (i == j)
              (λ _. (
                less,
                mine.1,
                λ q a b. pend q (mine.2 q a b),
                rw (set_slot_self s.ring lo sl, update_self s.written lo p)
                    (producer_write-Holds before p short),
              ))
              (λ e.
                PcOk-mono s.ring r' s.written (update s.written lo p) (s.pc j) refl (le_refl _)
                  (le_refl _) (λ q _. pend q)
                  (λ q o. let d = others i j lo q mine_lo (==-false→ne i j e) o in keeps q d.0 d.1)
                  (v.pc_ok j));
        exclusive = exclusive_update s.pc i (wrote lo hi) (λ q o. rw at_i o) v.exclusive;
        readable = λ q a b c.
            let ne : lo ≢ q =
              published-ne s.ring lo q (mine.2 lo (le_refl lo) less).1 (sym (same q) ∙ c) in
            keeps q ne (apart lo q (mine.2 lo (le_refl lo) less, omega arith) a b ne)
              (v.readable q a b (sym (same q) ∙ c));
      }

  pub make_public-Inv :
      (i lo hi : ℕ)
      → s.pc i ≡ wrote lo hi
      → Inv k (
          goto
            (set_ring s (set_slot s.ring lo (publish (s.ring.slots (slot_index s.ring lo)) lo)))
            i
            (owns (lo + 1) hi))
  unfolding slot_index published_at
  make_public-Inv i lo hi at_i =
      let sl : Slot = publish (s.ring.slots (slot_index s.ring lo)) lo in
      let r' = set_slot s.ring lo sl in
      let mine : PcOk s.ring s.written (wrote lo hi) =
        subst (PcOk s.ring s.written) at_i (v.pc_ok i) in
      let mine_lo : Owned (s.pc i) lo = rw at_i (le_refl lo, mine.0) in
      let used : Pending s.ring lo × (lo < s.ring.producer_cursor) =
        Owned-Pending s.ring s.written (s.pc i) lo (v.pc_ok i) mine_lo in
      let far : (q : ℕ)
          → s.ring.committed_cursor ≤ q
          → q < s.ring.producer_cursor
          → lo ≢ q
          → r'.slots (slot_index r' q) ≡ s.ring.slots (slot_index s.ring q) =
        λ q a b ne. set_slot-ne s.ring lo sl q (apart lo q used a b ne) in
      let pend : (q : ℕ)
          → slot_index s.ring lo ≢ slot_index s.ring q
          → Pending s.ring q
          → Pending r' q =
        λ q ne h. (h.0, rw (set_slot-ne s.ring lo sl q ne) h.1) in
      record {
        ring_ok =
            IsRing-set_slot v.ring_ok lo sl (
              publish-stamp (s.ring.slots (slot_index s.ring lo)) lo s.ring.producer_cursor used.1);
        pc_ok = λ j.
            if_intro (PcOk r' s.written) (i == j)
              (λ _. (
                omega (arith, mine.0),
                mine.1,
                λ q a b.
                    pend q
                      (apart lo q used (omega (arith, v.ring_ok.committed_le, used.0.0))
                        (omega (arith, mine.1)) (λ e. omega arith))
                      (mine.2 q (omega arith) b),
              ))
              (λ e.
                PcOk-mono s.ring r' s.written s.written (s.pc j) refl (le_refl _) (le_refl _)
                  (λ q o. pend q (others i j lo q mine_lo (==-false→ne i j e) o).1)
                  (λ q o h.
                    rw
                      (set_slot-ne s.ring lo sl q (others i j lo q mine_lo (==-false→ne i j e) o).1)
                      h)
                  (v.pc_ok j));
        exclusive =
            exclusive_update s.pc i (owns (lo + 1) hi) (λ q o. rw at_i (omega arith, o.1))
              v.exclusive;
        readable = λ q a b c. elim (Bool-cases (lo == q)) [
          | inl e ↦
              subst (λ t. Holds (r'.slots (slot_index r' t)) (s.written t)) (==→eq lo q e)
                (rw (set_slot_self s.ring lo sl)
                  (read-publish (s.ring.slots (slot_index s.ring lo)) lo (s.written lo) mine.3))
          | inr e ↦
              let same = far q a b (==-false→ne lo q e) in rw same (v.readable q a b (rw same at c))
        ];
      }
