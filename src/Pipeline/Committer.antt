-- ===== src/Pipeline/Committer.antt =====
-- logdb/src/pipeline/committer.rs: how far the committer may go, and how far it goes in one batch.
pub mod Batch
pub mod Round
pub mod Cursors
pub mod Written
pub mod Choice
pub mod Advance
pub mod Turned
pub mod Returns
pub mod Stopped
pub mod Stall
pub mod Durable
pub mod Safe
use lv_logdb.Prelude.{ℕ, ◌+◌, ◌-◌, ◌/◌, ◌%◌, ◌^◌, min, max, Option, some, none, if◌then◌else◌}
use lv_logdb.Ring.{Ring, highest_published_contiguous}

abbrev pub next_of : Option ℕ → Option ℕ
next_of none = none
next_of (some hi) = some ((hi + 1) % 2 ^ 64)

-- On the fuel of `highest_published_contiguous`.
unfoldable pub available_hi : ℕ → Ring → ℕ → Option ℕ
available_hi fuel r committed =
    if r.hash_enabled
    then some r.sealed_cursor
    else next_of (highest_published_contiguous fuel r committed)

unfoldable pub choose_batch_end : ℕ → ℕ → ℕ → ℕ
choose_batch_end committed avail buf_capacity =
    let max_records = max (buf_capacity / 300) 64 in
    let limit = min (committed + max_records) (2 ^ 64 - 1) in min limit (avail - 1)
