-- ===== src/Ring/Slot/Read.antt =====
-- A slot (logdb/src/ring/slot.rs) gives back what was written last, whatever it held before.
use native.Mathlib.Nat.{mod-eq_of_lt}
use lv_logdb.Prelude.{
  ℕ, ◌<◌, ◌%◌, ◌^◌, ◌≡◌, refl, Bytes, length, leb, Bool-cases, inl, inr, take, take-append_length,
  take_all, arith,
}
use lv_logdb.Ring.Slot.{
  Slot, Storage, inline, spill, producer_write, publish, read, write_hash, inline_cap, store_inline,
  bytes_of,
}

store_inline-take :
    (st : Storage) (content : Bytes)
    → take (length content) (bytes_of (store_inline st content)) ≡ content
store_inline-take (inline buf) content = take-append_length content _
store_inline-take (spill b) content = take-append_length content _

-- After a producer's write, with or without the sealer's hash and the publication, a slot reads as
-- the id, the time and the content of that write, for a content of less than 2 ^ 32 bytes. The
-- length of the content decides where it lies, and what the slot held before does not matter.
pub read-producer_write :
    (s : Slot) (id ts : ℕ) (content hash_n : Bytes) (seq : ℕ)
    → length content < 2 ^ 32
    → (read (producer_write s id ts content)
        ≡ record { record_id = id; timestamp_ns = ts; content = content; hash_n = s.hash_n })
      × (read (write_hash (publish (producer_write s id ts content) seq) hash_n)
          ≡ record { record_id = id; timestamp_ns = ts; content = content; hash_n = hash_n })
unfolding read producer_write publish write_hash
read-producer_write s id ts content hash_n seq h =
    let n : length content % 2 ^ 32 ≡ length content = mod-eq_of_lt h in
    elim (Bool-cases (leb (length content) inline_cap)) [
      | inl short ↦ rw (n, short, store_inline-take s.storage content) (refl, refl)
      | inr long ↦ rw (n, long, take_all (length content) content (omega arith)) (refl, refl)
    ]
