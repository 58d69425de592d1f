-- ===== src/Pipeline/Sealer.antt =====
-- logdb/src/pipeline/sealer.rs: the keyed hash chain, the rounds of the sealer's loop and the check
-- of a chain. `keyed_hash key message` is the keyed mode of the blake3 crate; `update` appends to the
-- message.
pub mod Scan
pub mod Sealed
pub mod Verify
use lv_logdb.Prelude.{
  ℕ, zero, suc, ◌+◌, ◌-◌, ◌%◌, ◌^◌, Bool, true, false, not, List, [], ◌∷◌, ◌++◌, Bytes, Option,
  none, some, leb, ◌==◌, bytes_eq, if◌then◌else◌,
}
use lv_logdb.Format.{hash_algo_blake3}
use lv_logdb.Pipeline.Shutdown.{ShutdownState, should_stop}
use lv_logdb.Ring.{Ring, slot_index, published_at}
use lv_logdb.Ring.Slot.{read, write_hash}
use lv_logdb.Ring.System.{set_slot}

-- The loop of `scan_published`, on fuel; `none` means that the fuel ran out.
unfoldable pub scan_loop : ℕ → Ring → ℕ → ℕ → Option ℕ
scan_loop zero r from_seq seq = none
scan_loop (suc fuel) r from_seq seq =
    if not (published_at r seq)
    then some ((seq + 2 ^ 64 - 1) % 2 ^ 64)
    else (let seq' = (seq + 1) % 2 ^ 64 in
        elim (leb r.ring_size ((seq' + 2 ^ 64 - from_seq) % 2 ^ 64)) [
          | true ↦ some ((seq' + 2 ^ 64 - 1) % 2 ^ 64)
          | false ↦ scan_loop fuel r from_seq seq'
        ])

unfoldable pub scan_published : Ring → ℕ → Option ℕ
scan_published r from_seq =
    if not (published_at r from_seq) then none else scan_loop r.ring_size r from_seq from_seq

pub data SealerTurn : Type 0 where
  sealed : Ring → Bytes → ℕ → SealerTurn
  stopped waiting : SealerTurn

module _ (keyed_hash : Bytes → Bytes → Bytes) where
  unfoldable pub blake3_keyed_chain : Bytes → Bytes → Bytes → Bytes
  blake3_keyed_chain key prev_hash content = keyed_hash key (prev_hash ++ content)

  -- `for seq in next_seq..=hi`, for the number of records that are left, with the ring and the last hash.
  unfoldable pub seal_range : Bytes → ℕ → Ring → Bytes → ℕ → Ring × Bytes
  seal_range hash_init zero r last_hash seq = (r, last_hash)
  seal_range hash_init (suc n) r last_hash seq =
      let sl = r.slots (slot_index r seq) in
      let hash_n = blake3_keyed_chain hash_init last_hash ((read sl).content) in
      seal_range hash_init n (set_slot r seq (write_hash sl hash_n)) hash_n (seq + 1)

  -- A round of `run_sealer`: the ring, `last_hash` and `next_seq` after it; `none` where it waits.
  unfoldable pub seal_round : Bytes → Ring → Bytes → ℕ → Option (Ring × Bytes × ℕ)
  seal_round hash_init r last_hash next_seq = elim (scan_published r next_seq) [
    | none ↦ none
    | some hi ↦
        let done = seal_range hash_init (hi + 1 - next_seq) r last_hash next_seq in
        some (record done.0 { sealed_cursor = (hi + 1) % 2 ^ 64 }, done.1, (hi + 1) % 2 ^ 64)
  ]

  -- A pass of the loop of `run_sealer`: it seals, returns, or waits for records.
  unfoldable pub sealer_turn : ShutdownState → Bytes → Ring → Bytes → ℕ → SealerTurn
  sealer_turn shutdown hash_init r last_hash next_seq =
      elim (seal_round hash_init r last_hash next_seq) [
        | some after ↦ sealed after.0 after.1 after.2
        | none ↦ if should_stop shutdown next_seq then stopped else waiting
      ]

-- `sha256` is `Sha256` of the sha2 crate.
unfoldable pub sha256_chain : (Bytes → Bytes) → Bytes → Bytes → Bytes
sha256_chain sha256 prev_hash content = sha256 (prev_hash ++ content)

-- The loops of `verify_chain`, which differ in the hash, over contents and stored hashes.
unfoldable pub verify_loop : (Bytes → Bytes → Bytes) → Bytes → List (Bytes × Bytes) → Bool
verify_loop chain expected [] = true
verify_loop chain expected (rec ∷ records) =
    let found = chain expected rec.0 in
    elim (bytes_eq found rec.1) [ true ↦ verify_loop chain found records | false ↦ false ]

unfoldable pub verify_chain :
    (Bytes → Bytes → Bytes) → (Bytes → Bytes) → List (Bytes × Bytes) → Bytes → ℕ → Bool
verify_chain keyed_hash sha256 records init_hash hash_algo =
    if hash_algo == hash_algo_blake3
    then verify_loop (blake3_keyed_chain keyed_hash init_hash) init_hash records
    else verify_loop (sha256_chain sha256) init_hash records
