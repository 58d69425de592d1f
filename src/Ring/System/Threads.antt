-- ===== src/Ring/System/Threads.antt =====
-- The steps of a ring (logdb/src/ring, logdb/src/pipeline) that move a cursor keep the invariant.
use native.Mathlib.Nat.{le_refl}
use native.Mathlib.Decide.{dec_lt}
use lv_logdb.Prelude.{
  ℕ, ◌+◌, ◌^◌, ◌≤◌, ◌<◌, ◌≡◌, inl, inr, refl, subst, true, false, arith, ◌==◌, if_intro, Bool-cases,
}
use lv_logdb.Ring.{Ring, slot_index, published_at}
use lv_logdb.Ring.System.{passed, owns, System, goto, set_ring}
use lv_logdb.Ring.System.Inv.{frontier, IsRing, Pending, PcOk, Inv}
use lv_logdb.Ring.System.Steps.{PcOk-mono, Owned-Pending, exclusive_join, published_at-lt}

-- Where a cursor moves up to `hi` over published numbers, no pending number is passed.
passes_no_pending :
    (r : Ring) (from hi q : ℕ)
    → ((p : ℕ) → from ≤ p → p < hi → published_at r p ≡ true)
    → from ≤ q
    → published_at r q ≡ false
    → hi ≤ q
passes_no_pending r from hi q all le off = elim (dec_lt q hi) [
  | yes less ↦ absurd (grind (arith, all q le less))
  | no more ↦ omega arith
]

-- Nor is the cursor of the producers.
passes_no_free :
    {k : ℕ} {r : Ring}
    → IsRing k r
    → (from hi : ℕ) → ((p : ℕ) → from ≤ p → p < hi → published_at r p ≡ true)
    → from ≤ r.producer_cursor
    → hi ≤ r.producer_cursor
passes_no_free {r = r} v from hi all le = elim (dec_lt r.producer_cursor hi) [
  | yes less ↦
      absurd
        (omega (arith, published_at-lt v r.producer_cursor v.small (all r.producer_cursor le less)))
  | no more ↦ omega arith
]

module _ {k : ℕ} {s : System} (v : Inv k s) where
  seal-IsRing :
      (hi : ℕ)
      → s.ring.hash_enabled ≡ true
      → s.ring.sealed_cursor ≤ hi
      → hi ≤ s.ring.producer_cursor
      → IsRing k (record s.ring { sealed_cursor = hi })
  seal-IsRing hi on le room =
      let o = v.ring_ok in
      record {
        mask_eq = o.mask_eq;
        size_eq = o.size_eq;
        size_small = o.size_small;
        small = o.small;
        committed_le = rw on (omega (arith, rw on at o.committed_le));
        frontier_le = rw on room;
        window = o.window;
        stamps = o.stamps;
      }

  pub seal-Inv :
      (hi : ℕ)
      → s.ring.hash_enabled ≡ true
      → s.ring.sealed_cursor ≤ hi
      → ((q : ℕ) → s.ring.sealed_cursor ≤ q → q < hi → published_at s.ring q ≡ true)
      → Inv k (set_ring s (record s.ring { sealed_cursor = hi }))
  unfolding published_at slot_index
  seal-Inv hi on le all =
      let o = v.ring_ok in
      let room = passes_no_free o s.ring.sealed_cursor hi all (rw on at o.frontier_le) in
      record {
        ring_ok = seal-IsRing hi on le room;
        pc_ok = λ j.
            PcOk-mono s.ring (record s.ring { sealed_cursor = hi }) s.written s.written (s.pc j)
              refl (omega arith) (omega arith)
              (λ q _ pending. (
                rw on (
                    passes_no_pending s.ring s.ring.sealed_cursor hi q all (rw on at pending.0)
                      pending.1),
                pending.1,
              ))
              (λ q _ h. h) (v.pc_ok j);
        exclusive = v.exclusive;
        readable = v.readable;
      }

  -- The committer's store, which takes the cursor to a number up to the new frontier.
  commit-Inv :
      (to : ℕ)
      → s.ring.committed_cursor ≤ to
      → to ≤ frontier (record s.ring { committed_cursor = to })
      → frontier (record s.ring { committed_cursor = to }) ≤ s.ring.producer_cursor
      → ((q : ℕ) → Pending s.ring q → frontier (record s.ring { committed_cursor = to }) ≤ q)
      → Inv k (set_ring s (record s.ring { committed_cursor = to }))
  unfolding published_at slot_index
  commit-Inv to le behind ahead pending =
      let o = v.ring_ok in
      record {
        ring_ok = record {
          mask_eq = o.mask_eq;
          size_eq = o.size_eq;
          size_small = o.size_small;
          small = o.small;
          committed_le = behind;
          frontier_le = ahead;
          window = omega (arith, o.window);
          stamps = o.stamps;
        };
        pc_ok = λ j.
            PcOk-mono s.ring (record s.ring { committed_cursor = to }) s.written s.written (s.pc j)
              refl le (omega arith) (λ q _ p. (pending q p, p.1)) (λ q _ h. h) (v.pc_ok j);
        exclusive = v.exclusive;
        readable = λ q a b c. v.readable q (omega arith) b c;
      }

  pub commit_sealed-Inv :
      (to : ℕ)
      → s.ring.hash_enabled ≡ true
      → s.ring.committed_cursor ≤ to
      → to ≤ s.ring.sealed_cursor
      → Inv k (set_ring s (record s.ring { committed_cursor = to }))
  commit_sealed-Inv to on le sealed =
      commit-Inv to le (rw on sealed) (rw on (rw on at v.ring_ok.frontier_le))
        (λ q p. rw on (rw on at p.0))

  pub commit_published-Inv :
      (to : ℕ)
      → s.ring.hash_enabled ≡ false
      → s.ring.committed_cursor ≤ to
      → ((q : ℕ) → s.ring.committed_cursor ≤ q → q < to → published_at s.ring q ≡ true)
      → Inv k (set_ring s (record s.ring { committed_cursor = to }))
  commit_published-Inv to off le all =
      let room =
        passes_no_free v.ring_ok s.ring.committed_cursor to all (rw off at v.ring_ok.frontier_le) in
      commit-Inv to le (rw off (omega arith)) (rw off room) (λ q p.
        rw off (passes_no_pending s.ring s.ring.committed_cursor to q all (rw off at p.0) p.1))

  -- The numbers that a compare-and-swap claims are new.
  fresh_pending :
      (n q : ℕ)
      → s.ring.producer_cursor + n + 1 < 2 ^ 64
      → q < s.ring.producer_cursor + n
      → published_at s.ring q ≡ true
      → q < s.ring.producer_cursor
  fresh_pending n q small lt on = published_at-lt v.ring_ok q (omega arith) on

  pub cas-Inv :
      (i seq n : ℕ)
      → s.pc i ≡ passed seq n
      → s.ring.producer_cursor ≡ seq
      → seq + n + 1 < 2 ^ 64
      → Inv k
          (goto (set_ring s (record s.ring { producer_cursor = seq + n })) i (owns seq (seq + n)))
  unfolding published_at slot_index
  cas-Inv i seq n at_i at_cursor small =
      let o = v.ring_ok in
      let r' = record s.ring { producer_cursor = seq + n } in
      let mine : PcOk s.ring s.written (passed seq n) =
        subst (PcOk s.ring s.written) at_i (v.pc_ok i) in
      let room : seq + n ≤ s.ring.committed_cursor + 2 ^ k = elim mine.1 [
        | inl near ↦ omega (arith, o.size_eq)
        | inr old ↦ absurd (omega (arith, o.committed_le, o.frontier_le))
      ] in
      let unpub : (q : ℕ) → seq ≤ q → q < seq + n → published_at s.ring q ≡ false = λ q a b.
        elim (Bool-cases (published_at s.ring q)) [
          | inl on ↦ absurd (omega (arith, fresh_pending n q (omega arith) (omega arith) on))
          | inr off ↦ off
        ] in
      record {
        ring_ok = record {
          mask_eq = o.mask_eq;
          size_eq = o.size_eq;
          size_small = o.size_small;
          small = small;
          committed_le = o.committed_le;
          frontier_le = omega (arith, o.frontier_le);
          window = room;
          stamps = λ j. omega (arith, o.stamps j);
        };
        pc_ok = λ j.
            if_intro (PcOk r' s.written) (i == j)
              (λ _. (omega arith, le_refl _, λ q a b. (omega (arith, o.frontier_le), unpub q a b)))
              (λ _.
                PcOk-mono s.ring r' s.written s.written (s.pc j) refl (le_refl _) (omega arith)
                  (λ q _ p. p) (λ q _ h. h) (v.pc_ok j));
        exclusive =
            exclusive_join s.pc i (owns seq (seq + n))
              (λ j q a b.
                absurd
                  (omega (arith, a.0, (Owned-Pending s.ring s.written (s.pc j) q (v.pc_ok j) b).1)))
              v.exclusive;
        readable = λ q a b c. v.readable q a (fresh_pending n q (omega arith) (omega arith) c) c;
      }
