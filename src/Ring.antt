-- ===== src/Ring.antt =====
-- logdb/src/ring/mod.rs: the ring buffer of a shard, its cursors, and the tests that producers and
-- consumers make on them. The slots are a function of the index, which `mask` keeps below the size.
-- A `u64` is a number below 2 ^ 64. Children: the slot, the threads, what holds of them.
pub mod Slot
pub mod System
use lv_logdb.Prelude.{
  ℕ, zero, suc, ◌+◌, ◌-◌, ◌%◌, ◌^◌, ◌≤◌, Bool, true, false, Option, none, some, leb, ltb, ◌==◌,
  if◌then◌else◌, bit_and, min,
}
use Slot.{is_published, fresh}

pub record Ring : Type 0 where
  pub slots : ℕ → Slot.Slot
  pub mask : ℕ
  pub ring_size : ℕ
  pub producer_cursor : ℕ
  pub sealed_cursor : ℕ
  pub committed_cursor : ℕ
  pub durable_cursor : ℕ
  pub hash_enabled : Bool

-- `Ring::new` for a size that its assertion lets pass, which is a power of two and at least 16.
unfoldable pub init : ℕ → Bool → ℕ → Ring
init ring_size hash_enabled initial = record {
  slots = λ _. fresh;
  mask = ring_size - 1;
  ring_size = ring_size;
  producer_cursor = initial;
  sealed_cursor = initial;
  committed_cursor = initial;
  durable_cursor = initial;
  hash_enabled = hash_enabled;
}

-- The watermark, from the values that the two loads have returned.
abbrev pub watermark : Bool → ℕ → ℕ → ℕ
watermark hash_enabled committed sealed = if hash_enabled then min committed sealed else committed

unfoldable pub consume_watermark : Ring → ℕ
consume_watermark r = watermark r.hash_enabled r.committed_cursor r.sealed_cursor

-- `seq.wrapping_sub(wm)`
abbrev pub in_flight : ℕ → ℕ → ℕ
in_flight seq wm = (seq + 2 ^ 64 - wm) % 2 ^ 64

-- The test of `claim`, on the values that it has loaded.
unfoldable pub claim_full : ℕ → ℕ → ℕ → Bool
claim_full ring_size seq wm = leb ring_size (in_flight seq wm)

-- That of `claim_batch`; the sum wraps.
unfoldable pub claim_batch_full : ℕ → ℕ → ℕ → ℕ → Bool
claim_batch_full ring_size n seq wm = ltb ring_size ((in_flight seq wm + n) % 2 ^ 64)

-- `(seq & self.mask) as usize`
unfoldable pub slot_index : Ring → ℕ → ℕ
slot_index r seq = bit_and seq r.mask

unfoldable pub published_at : Ring → ℕ → Bool
published_at r seq = is_published (r.slots (slot_index r seq)) seq

-- The loop of `highest_published_contiguous`, on fuel; `none` means that the fuel ran out.
unfoldable pub highest_published_contiguous : ℕ → Ring → ℕ → Option ℕ
highest_published_contiguous zero r seq = none
highest_published_contiguous (suc fuel) r seq = elim (published_at r seq) [
  | false ↦ some ((seq + 2 ^ 64 - 1) % 2 ^ 64)
  | true ↦ highest_published_contiguous fuel r ((seq + 1) % 2 ^ 64)
]
