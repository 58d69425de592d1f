-- ===== src/Tests/Ring.antt =====
-- A ring of 16 slots (logdb/src/ring) from number 1 on: producer 0 claims, writes and publishes
-- number 1, then producer 1 claims number 2.
use native.Mathlib.Nat.{le_refl}
use lv_logdb.Prelude.{ℕ, ◌+◌, ◌≤◌, ◌≡◌, ◌≢◌, refl, true, false, [], ◌∷◌, replicate, arith}
use lv_logdb.Ring.{init, consume_watermark, claim_full, slot_index, published_at}
use lv_logdb.Ring.Slot.{fresh, producer_write, publish, is_published, read, write_hash}
use lv_logdb.Ring.Slot.Read.{read-producer_write}
use lv_logdb.Ring.System.{
  Payload, loaded, half_loaded, passed, owns, wrote, System, update, goto, set_ring, set_slot,
  load_cursor, load_committed, load_sealed, cas, write, make_public, Reach, start, later, begin,
}
use lv_logdb.Ring.System.Inv.{Holds, IsRing}
use lv_logdb.Ring.System.Safety.{
  Reach-Inv, cursors-window, owners-apart, Owned-unread, reads-written,
}

read-producer_write_example :
    (read (producer_write fresh 40 1000 (1 ∷ 2 ∷ []))
      ≡ record { record_id = 40; timestamp_ns = 1000; content = 1 ∷ 2 ∷ []; hash_n = fresh.hash_n })
    × (read (write_hash (publish (producer_write fresh 40 1000 (1 ∷ 2 ∷ [])) 5) (replicate 32 3))
        ≡ record {
          record_id = 40;
          timestamp_ns = 1000;
          content = 1 ∷ 2 ∷ [];
          hash_n = replicate 32 3;
        })
read-producer_write_example =
    read-producer_write fresh 40 1000 (1 ∷ 2 ∷ []) (replicate 32 3) 5 (omega arith)

abbrev note : Payload
note = record { id = 4; time = 1000; content = 1 ∷ 2 ∷ [] }

-- Producer `i` claims `n` numbers from `seq` on.
abbrev claimed : System → ℕ → ℕ → ℕ → System
claimed s i seq n =
    goto
      (set_ring (goto (goto (goto s i (loaded seq n)) i (half_loaded seq n 1)) i (passed seq n))
        (record s.ring { producer_cursor = seq + n }))
      i (owns seq (seq + n))

abbrev one_claimed : System
one_claimed = claimed (begin 4 true 1) 0 1 1

abbrev one_written : System
one_written = record one_claimed {
  ring =
      set_slot one_claimed.ring 1 (
        producer_write (one_claimed.ring.slots (slot_index one_claimed.ring 1)) 4 1000
          (1 ∷ 2 ∷ []));
  pc = update one_claimed.pc 0 (wrote 1 2);
  written = update one_claimed.written 1 note;
}

abbrev pub one_public : System
one_public =
    goto
      (set_ring one_written (
        set_slot one_written.ring 1
          (publish (one_written.ring.slots (slot_index one_written.ring 1)) 1)))
      0 (owns 2 2)

abbrev two_claimed : System
two_claimed = claimed one_public 1 2 1

one_public-Reach : Reach 4 true 1 one_public
unfolding init claim_full
one_public-Reach =
    later
      (later
        (later
          (later
            (later (later start (load_cursor 0 1 refl (le_refl 1) (omega arith)))
              (load_committed 0 1 1 refl))
            (load_sealed 0 1 1 1 false refl (λ _. refl) refl))
          (cas 0 1 1 refl refl (omega arith)))
        (write 0 1 2 note refl (omega arith) (omega arith)))
      (make_public 0 1 2 refl)

two_claimed-Reach : Reach 4 true 1 two_claimed
unfolding init claim_full
two_claimed-Reach =
    later
      (later
        (later (later one_public-Reach (load_cursor 1 1 refl (le_refl 1) (omega arith)))
          (load_committed 1 2 1 refl))
        (load_sealed 1 2 1 1 false refl (λ _. refl) refl))
      (cas 1 2 1 refl refl (omega arith))

pub one_public-IsRing : IsRing 4 one_public.ring
one_public-IsRing = (Reach-Inv (omega arith) (omega arith) one_public-Reach).ring_ok

pub one_public-published : published_at one_public.ring 1 ≡ true
unfolding published_at is_published slot_index publish producer_write init
one_public-published = refl

two_claimed-published : published_at two_claimed.ring 1 ≡ true
unfolding published_at is_published slot_index publish producer_write init
two_claimed-published = refl

two_claimed-watermark : consume_watermark two_claimed.ring ≤ 1
unfolding consume_watermark init
two_claimed-watermark = le_refl 1

cursors-window_example :
    (consume_watermark two_claimed.ring ≡ two_claimed.ring.committed_cursor)
    × (two_claimed.ring.committed_cursor ≤ two_claimed.ring.producer_cursor)
    × (two_claimed.ring.producer_cursor
        ≤ two_claimed.ring.committed_cursor + two_claimed.ring.ring_size)
cursors-window_example = cursors-window (omega arith) (omega arith) two_claimed-Reach

owners-apart_example : ◌≡◌ {A = ℕ} 1 1 × ◌≡◌ {A = ℕ} 2 2
owners-apart_example =
    owners-apart (omega arith) (omega arith) two_claimed-Reach 1 1 2 2 (omega arith) (omega arith)
      refl

Owned-unread_example :
    (published_at two_claimed.ring 2 ≡ false)
    × (consume_watermark two_claimed.ring ≤ 2)
    × (slot_index two_claimed.ring 2 ≢ slot_index two_claimed.ring 1)
Owned-unread_example =
    Owned-unread (omega arith) (omega arith) two_claimed-Reach 1 2 1 (omega arith)
      two_claimed-watermark (omega arith) two_claimed-published

reads-written_example :
    Holds (two_claimed.ring.slots (slot_index two_claimed.ring 1)) (two_claimed.written 1)
reads-written_example =
    reads-written (omega arith) (omega arith) two_claimed-Reach 1 two_claimed-watermark
      (omega arith) two_claimed-published
