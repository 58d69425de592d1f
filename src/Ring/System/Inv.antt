-- ===== src/Ring/System/Inv.antt =====
-- What holds of a ring (logdb/src/ring) and of the threads on it between any two atomic steps.
use lv_logdb.Prelude.{ℕ, ◌+◌, ◌-◌, ◌≤◌, ◌<◌, ◌^◌, ◌≡◌, ◌⊎◌, true, false, if◌then◌else◌}
use lv_logdb.Ring.{Ring, slot_index, published_at}
use lv_logdb.Ring.Slot.{Slot, read}
use lv_logdb.Ring.System.{Payload, Pc, idle, loaded, half_loaded, passed, owns, wrote, System}

-- Up to where the threads that read slots as published have read.
abbrev pub frontier : Ring → ℕ
frontier r = if r.hash_enabled then r.sealed_cursor else r.committed_cursor

-- The slot reads as the payload.
abbrev pub Holds : Slot → Payload → Type 0
Holds sl p =
    ((read sl).record_id ≡ p.id)
    × ((read sl).timestamp_ns ≡ p.time)
    × ((read sl).content ≡ p.content)

abbrev pub Owned : Pc → ℕ → Type 0
Owned (owns lo hi) q = (lo ≤ q) × (q < hi)
Owned (wrote lo hi) q = (lo ≤ q) × (q < hi)
Owned idle q = ⊥
Owned (loaded seq n) q = ⊥
Owned (half_loaded seq n c) q = ⊥
Owned (passed seq n) q = ⊥

pub record IsRing (k : ℕ) (r : Ring) : Type 0 where
  pub mask_eq : r.mask ≡ 2 ^ k - 1
  pub size_eq : r.ring_size ≡ 2 ^ k
  pub size_small : 2 ^ k ≤ 2 ^ 62
  pub small : r.producer_cursor + 1 < 2 ^ 64
  pub committed_le : r.committed_cursor ≤ frontier r
  pub frontier_le : frontier r ≤ r.producer_cursor
  pub window : r.producer_cursor ≤ r.committed_cursor + 2 ^ k
  pub stamps : (i : ℕ) → (r.slots i).sequence ≤ r.producer_cursor

-- A number that is claimed and not yet published.
abbrev pub Pending : Ring → ℕ → Type 0
Pending r q = (frontier r ≤ q) × (published_at r q ≡ false)

abbrev pub PcOk : Ring → (ℕ → Payload) → Pc → Type 0
PcOk r w idle = Unit
PcOk r w (loaded seq n) =
    (seq ≤ r.committed_cursor + r.ring_size) × (seq < 2 ^ 64) × (1 ≤ n) × (n ≤ r.ring_size)
PcOk r w (half_loaded seq n c) =
    (seq ≤ c + r.ring_size)
    × (seq < 2 ^ 64)
    × (1 ≤ n)
    × (n ≤ r.ring_size)
    × (c ≤ r.committed_cursor)
PcOk r w (passed seq n) =
    (1 ≤ n) × ((seq + n ≤ r.committed_cursor + r.ring_size) ⊎ (seq < r.committed_cursor))
PcOk r w (owns lo hi) =
    (lo ≤ hi) × (hi ≤ r.producer_cursor) × ((q : ℕ) → lo ≤ q → q < hi → Pending r q)
PcOk r w (wrote lo hi) =
    (lo < hi)
    × (hi ≤ r.producer_cursor)
    × ((q : ℕ) → lo ≤ q → q < hi → Pending r q)
    × Holds (r.slots (slot_index r lo)) (w lo)

pub record Inv (k : ℕ) (s : System) : Type 0 where
  pub ring_ok : IsRing k s.ring
  pub pc_ok : (i : ℕ) → PcOk s.ring s.written (s.pc i)
  pub exclusive : (i j q : ℕ) → Owned (s.pc i) q → Owned (s.pc j) q → i ≡ j
  pub readable :
      (q : ℕ)
      → s.ring.committed_cursor ≤ q
      → q < s.ring.producer_cursor
      → published_at s.ring q ≡ true
      → Holds (s.ring.slots (slot_index s.ring q)) (s.written q)
