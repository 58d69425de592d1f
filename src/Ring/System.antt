-- ===== src/Ring/System.antt =====
-- The threads on one ring, as interleavings of their atomic steps: any number of producers in
-- `claim` or `claim_batch` (logdb/src/ring/mod.rs) and then in `append_routed` or `append_batch`
-- (logdb/src/lib.rs), the sealer and the committer (logdb/src/pipeline). Loads and stores are taken
-- to be sequentially consistent, and cursors to stay below 2 ^ 64.
pub mod Inv
pub mod Claims
pub mod Steps
pub mod Threads
pub mod Slots
pub mod Safety
use lv_logdb.Prelude.{
  ℕ, ◌+◌, ◌≤◌, ◌<◌, ◌^◌, ◌≡◌, Bool, true, false, [], Bytes, ◌==◌, if◌then◌else◌, length,
}
use lv_logdb.Ring.{Ring, claim_full, claim_batch_full, slot_index, published_at, watermark, init}
use lv_logdb.Ring.Slot.{Slot, producer_write, publish, write_hash}

-- What a producer writes for a sequence number.
pub record Payload : Type 0 where
  pub id : ℕ
  pub time : ℕ
  pub content : Bytes

-- Where a producer stands. `n` is 1 in `claim`; `lo` to `hi` is what it has claimed and not yet
-- published, and in `wrote` the slot of `lo` is written.
pub data Pc : Type 0 where
  idle : Pc
  loaded : ℕ → ℕ → Pc
  half_loaded : ℕ → ℕ → ℕ → Pc
  passed : ℕ → ℕ → Pc
  owns : ℕ → ℕ → Pc
  wrote : ℕ → ℕ → Pc

-- `written` is what producers have written for each number, and no variable of the program.
pub record System : Type 0 where
  pub ring : Ring
  pub pc : ℕ → Pc
  pub written : ℕ → Payload

abbrev pub update {ℓ} : {A : Type ℓ} → (ℕ → A) → ℕ → A → ℕ → A
update f i a j = if i == j then a else f j

abbrev pub goto : System → ℕ → Pc → System
goto s i p = record s { pc = update s.pc i p }

abbrev pub set_ring : System → Ring → System
set_ring s r = record s { ring = r }

-- A write through `ring.slot(seq)`.
abbrev pub set_slot : Ring → ℕ → Slot → Ring
set_slot r seq sl = record r { slots = update r.slots (slot_index r seq) sl }

-- The test of `claim` for one number, that of `claim_batch` for a batch.
abbrev pub full : Ring → Bool → ℕ → ℕ → ℕ → Bool
full r batch n seq wm =
    if batch then claim_batch_full r.ring_size n seq wm else claim_full r.ring_size seq wm

-- `retry` is the failed test under either policy, and the compare-and-swap that fails, also spuriously.
pub data Step (s : System) : System → Type 0 where
  load_cursor :
      (i n : ℕ)
      → s.pc i ≡ idle
      → 1 ≤ n
      → n ≤ s.ring.ring_size
      → Step s (goto s i (loaded s.ring.producer_cursor n))
  load_committed :
      (i seq n : ℕ)
      → s.pc i ≡ loaded seq n
      → Step s (goto s i (half_loaded seq n s.ring.committed_cursor))
  load_sealed :
      (i seq n c : ℕ) (batch : Bool)
      → s.pc i ≡ half_loaded seq n c
      → (batch ≡ false → n ≡ 1)
      → full s.ring batch n seq (watermark s.ring.hash_enabled c s.ring.sealed_cursor) ≡ false
      → Step s (goto s i (passed seq n))
  retry : (i seq n c : ℕ) → s.pc i ≡ half_loaded seq n c → Step s (goto s i idle)
  cas :
      (i seq n : ℕ)
      → s.pc i ≡ passed seq n
      → s.ring.producer_cursor ≡ seq
      → seq + n + 1 < 2 ^ 64
      → Step s
          (goto (set_ring s (record s.ring { producer_cursor = seq + n })) i (owns seq (seq + n)))
  cas_fails : (i seq n : ℕ) → s.pc i ≡ passed seq n → Step s (goto s i idle)
  write :
      (i lo hi : ℕ) (p : Payload)
      → s.pc i ≡ owns lo hi
      → lo < hi
      → length p.content < 2 ^ 32
      → Step s (record s {
        ring =
            set_slot s.ring lo
              (producer_write (s.ring.slots (slot_index s.ring lo)) p.id p.time p.content);
        pc = update s.pc i (wrote lo hi);
        written = update s.written lo p;
      })
  make_public :
      (i lo hi : ℕ)
      → s.pc i ≡ wrote lo hi
      → Step s (
          goto
            (set_ring s (set_slot s.ring lo (publish (s.ring.slots (slot_index s.ring lo)) lo)))
            i
            (owns (lo + 1) hi))
  done : (i lo : ℕ) → s.pc i ≡ owns lo lo → Step s (goto s i idle)
  hash :
      (q : ℕ) (h : Bytes)
      → s.ring.hash_enabled ≡ true
      → s.ring.sealed_cursor ≤ q
      → q < s.ring.producer_cursor
      → Step s (set_ring s (set_slot s.ring q (write_hash (s.ring.slots (slot_index s.ring q)) h)))
  seal :
      (hi : ℕ)
      → s.ring.hash_enabled ≡ true
      → s.ring.sealed_cursor ≤ hi
      → ((q : ℕ) → s.ring.sealed_cursor ≤ q → q < hi → published_at s.ring q ≡ true)
      → Step s (set_ring s (record s.ring { sealed_cursor = hi }))
  commit_sealed :
      (to : ℕ)
      → s.ring.hash_enabled ≡ true
      → s.ring.committed_cursor ≤ to
      → to ≤ s.ring.sealed_cursor
      → Step s (set_ring s (record s.ring { committed_cursor = to }))
  commit_published :
      (to : ℕ)
      → s.ring.hash_enabled ≡ false
      → s.ring.committed_cursor ≤ to
      → ((q : ℕ) → s.ring.committed_cursor ≤ q → q < to → published_at s.ring q ≡ true)
      → Step s (set_ring s (record s.ring { committed_cursor = to }))

abbrev pub empty_payload : Payload
empty_payload = record { id = 0; time = 0; content = [] }

-- A ring of 2 ^ k slots, on which nothing has happened.
abbrev pub begin : ℕ → Bool → ℕ → System
begin k hashed initial = record {
  ring = init (2 ^ k) hashed initial;
  pc = λ _. idle;
  written = λ _. empty_payload;
}

pub data Reach (k : ℕ) (hashed : Bool) (initial : ℕ) : System → Type 0 where
  start : Reach k hashed initial (begin k hashed initial)
  later : {s t : System} → Reach k hashed initial s → Step s t → Reach k hashed initial t
