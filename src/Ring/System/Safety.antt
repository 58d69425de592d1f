-- ===== src/Ring/System/Safety.antt =====
-- The ring (logdb/src/ring) between its threads: what producers claim is theirs alone, and what
-- consumers read is what the producer of that number wrote.
use native.Mathlib.Nat.{le_refl}
use lv_logdb.Prelude.{
  ℕ, ◌+◌, ◌^◌, ◌≤◌, ◌<◌, ◌≡◌, ◌≢◌, inl, inr, refl, subst, Bool, true, false, arith, if_intro,
  Bool-cases, ◌==◌, ==→eq, ==-false→ne,
}
use lv_logdb.Ring.{slot_index, published_at, init, consume_watermark}
use lv_logdb.Ring.Slot.{is_published, fresh}
use lv_logdb.Ring.System.{
  idle, loaded, half_loaded, passed, System, Step, Reach, begin, start, later, load_cursor,
  load_committed, load_sealed, retry, cas, cas_fails, write, make_public, done, hash, seal,
  commit_sealed, commit_published,
}
use lv_logdb.Ring.System.Inv.{Holds, Owned, PcOk, Inv}
use lv_logdb.Ring.System.Claims.{full-false, watermark-eq}
use lv_logdb.Ring.System.Steps.{goto-Inv, Owned-Pending, slot_index-ne, published-ne}
use lv_logdb.Ring.System.Threads.{seal-Inv, commit_sealed-Inv, commit_published-Inv, cas-Inv}
use lv_logdb.Ring.System.Slots.{write-Inv, make_public-Inv, hash-Inv}

Step-Inv : {k : ℕ} {s t : System} → Inv k s → Step s t → Inv k t
Step-Inv {k} {s} v (load_cursor i n at_i one few) =
    goto-Inv v i (loaded s.ring.producer_cursor n)
      (omega (arith, v.ring_ok.window, v.ring_ok.size_eq), omega (arith, v.ring_ok.small), one, few)
      (λ q o. elim o [ ])
Step-Inv {k} {s} v (load_committed i seq n at_i) =
    let h = subst (PcOk s.ring s.written) at_i (v.pc_ok i) in
    goto-Inv v i (half_loaded seq n s.ring.committed_cursor)
      (h.0, h.1, h.2, h.3, le_refl s.ring.committed_cursor) (λ q o. elim o [ ])
Step-Inv {k} {s} v (load_sealed i seq n c batch at_i single passes) =
    let h = subst (PcOk s.ring s.written) at_i (v.pc_ok i) in
    goto-Inv v i (passed seq n)
      (h.2, full-false v.ring_ok batch n seq c single h.3 h.1 h.0 h.4 passes) (λ q o. elim o [ ])
Step-Inv v (retry i seq n c at_i) = goto-Inv v i idle tt (λ q o. elim o [ ])
Step-Inv v (cas i seq n at_i at_cursor small) = cas-Inv v i seq n at_i at_cursor small
Step-Inv v (cas_fails i seq n at_i) = goto-Inv v i idle tt (λ q o. elim o [ ])
Step-Inv v (write i lo hi p at_i less short) = write-Inv v i lo hi p at_i less short
Step-Inv v (make_public i lo hi at_i) = make_public-Inv v i lo hi at_i
Step-Inv v (done i lo at_i) = goto-Inv v i idle tt (λ q o. elim o [ ])
Step-Inv v (hash q h on le lt) = hash-Inv v q h
Step-Inv v (seal hi on le all) = seal-Inv v hi on le all
Step-Inv v (commit_sealed to on le sealed) = commit_sealed-Inv v to on le sealed
Step-Inv v (commit_published to off le all) = commit_published-Inv v to off le all

begin-Inv :
    (k : ℕ) (hashed : Bool) (initial : ℕ)
    → 2 ^ k ≤ 2 ^ 62
    → initial + 1 < 2 ^ 64
    → Inv k (begin k hashed initial)
unfolding init published_at is_published fresh
begin-Inv k hashed initial size small = record {
  ring_ok = record {
    mask_eq = refl;
    size_eq = refl;
    size_small = size;
    small = small;
    committed_le =
        if_intro {A = ℕ} (λ t. initial ≤ t) hashed (λ _. le_refl initial) (λ _. le_refl initial);
    frontier_le =
        if_intro {A = ℕ} (λ t. t ≤ initial) hashed (λ _. le_refl initial) (λ _. le_refl initial);
    window = omega arith;
    stamps = λ i. omega arith;
  };
  pc_ok = λ i. tt;
  exclusive = λ i j q o. elim o [ ];
  readable = λ q a b c. absurd (omega arith);
}

pub Reach-Inv :
    {k : ℕ} {hashed : Bool} {initial : ℕ} {s : System}
    → 2 ^ k ≤ 2 ^ 62
    → initial + 1 < 2 ^ 64
    → Reach k hashed initial s
    → Inv k s
Reach-Inv {k} {hashed} {initial} size small start = begin-Inv k hashed initial size small
Reach-Inv size small (later r st) = Step-Inv (Reach-Inv size small r) st

module _ {k : ℕ} {hashed : Bool} {initial : ℕ} {s : System} (size : 2 ^ k ≤ 2 ^ 62)
    (small : initial + 1 < 2 ^ 64) (r : Reach k hashed initial s) where
  -- In every state that the threads on a ring of 2 ^ k slots (at most 2 ^ 62, with a first number
  -- below 2 ^ 64 - 1) reach, the watermark of the readers is the committed cursor, and it is at most
  -- the producers' cursor and at most the size of the ring behind it, so that no claim overwrites a
  -- record that is not committed yet.
  pub cursors-window :
      (consume_watermark s.ring ≡ s.ring.committed_cursor)
      × (s.ring.committed_cursor ≤ s.ring.producer_cursor)
      × (s.ring.producer_cursor ≤ s.ring.committed_cursor + s.ring.ring_size)
  unfolding consume_watermark
  cursors-window =
      let o = (Reach-Inv size small r).ring_ok in
      (
        watermark-eq s.ring.hash_enabled s.ring.committed_cursor s.ring.sealed_cursor
            s.ring.committed_cursor (le_refl _) o.committed_le,
        omega (arith, o.committed_le, o.frontier_le),
        omega (arith, o.window, o.size_eq),
      )

  -- In every state that the threads on a ring reach (of 2 ^ k slots, at most 2 ^ 62, from a number
  -- below 2 ^ 64 - 1): when the slots of two numbers that producers own are the same slot, the
  -- producers are the same and the numbers are the same.
  pub owners-apart :
      (i j p q : ℕ)
      → Owned (s.pc i) p
      → Owned (s.pc j) q
      → slot_index s.ring p ≡ slot_index s.ring q
      → (i ≡ j) × (p ≡ q)
  owners-apart i j p q a b e =
      let v = Reach-Inv size small r in
      let hp = Owned-Pending s.ring s.written (s.pc i) p (v.pc_ok i) a in
      let hq = Owned-Pending s.ring s.written (s.pc j) q (v.pc_ok j) b in
      let same : p ≡ q = elim (Bool-cases (p == q)) [
        | inl yes' ↦ ==→eq p q yes'
        | inr ne ↦ absurd (
            slot_index-ne v.ring_ok p q (omega (arith, v.ring_ok.committed_le, hp.0.0)) hp.1
              (omega (arith, v.ring_ok.committed_le, hq.0.0)) hq.1 (==-false→ne p q ne) e)
      ] in
      (v.exclusive i j q (subst (Owned (s.pc i)) same a) b, same)

  -- In every state that the threads on a ring reach (of 2 ^ k slots, at most 2 ^ 62, from a number
  -- below 2 ^ 64 - 1): a number that a producer owns is not published and not below the readers'
  -- watermark, and its slot is not that of a published number between the watermark and the
  -- producers' cursor, so that readers never read the slot that a producer writes.
  pub Owned-unread :
      (i lo q : ℕ)
      → Owned (s.pc i) lo
      → consume_watermark s.ring ≤ q
      → q < s.ring.producer_cursor
      → published_at s.ring q ≡ true
      → (published_at s.ring lo ≡ false)
        × (consume_watermark s.ring ≤ lo)
        × (slot_index s.ring lo ≢ slot_index s.ring q)
  Owned-unread i lo q o a b on =
      let v = Reach-Inv size small r in
      let h = Owned-Pending s.ring s.written (s.pc i) lo (v.pc_ok i) o in
      let mark = cursors-window.0 in
      let le : s.ring.committed_cursor ≤ lo = omega (arith, v.ring_ok.committed_le, h.0.0) in
      (
        h.0.1,
        rw mark le,
        slot_index-ne v.ring_ok lo q le h.1 (rw mark at a) b (published-ne s.ring lo q h.0.1 on),
      )

  -- In every state that the threads on a ring reach (of 2 ^ k slots, at most 2 ^ 62, from a number
  -- below 2 ^ 64 - 1): a slot that is published for a number between the readers' watermark and the
  -- producers' cursor reads as the id, the time and the content that were written for that number.
  pub reads-written :
      (q : ℕ)
      → consume_watermark s.ring ≤ q
      → q < s.ring.producer_cursor
      → published_at s.ring q ≡ true
      → Holds (s.ring.slots (slot_index s.ring q)) (s.written q)
  reads-written q a b on = (Reach-Inv size small r).readable q (rw cursors-window.0 at a) b on
