-- ===== src/Shard.antt =====
-- logdb/src/shard.rs: the record id of a shard's local sequence number, and the choice of a shard.
-- `crc32c` is the function of the crc32c crate. A `u64` is a number below 2 ^ 64.
pub mod Ids
pub mod Map
use lv_logdb.Prelude.{
  ℕ, zero, suc, ◌+◌, ◌-◌, ◌*◌, ◌/◌, ◌%◌, ◌^◌, ltb, leb, ◌==◌, if◌then◌else◌, bit_and, bit_or, Bytes,
}

-- The leading zeros of a number of `w` bits.
unfoldable pub leading_zeros : ℕ → ℕ → ℕ
leading_zeros zero x = 0
leading_zeros (suc w) x = if ltb x (2 ^ w) then suc (leading_zeros w x) else 0

unfoldable pub shard_bits : ℕ → ℕ
shard_bits num_shards = if leb num_shards 1 then 0 else 64 - leading_zeros 64 (num_shards - 1)

unfoldable pub encode_record_id : ℕ → ℕ → ℕ → ℕ
encode_record_id shard_id local_seq bits =
    if bits == 0 then local_seq else bit_or (local_seq * 2 ^ bits % 2 ^ 64) shard_id

pub decode_record_id : ℕ → ℕ → ℕ × ℕ
decode_record_id global_id bits =
    if bits == 0
    then (0, global_id)
    else (let mask = 2 ^ bits - 1 in (bit_and global_id mask, global_id / 2 ^ bits))

-- `ShardMap::select_shard_by_key`
pub select_shard_by_key : (Bytes → ℕ) → ℕ → Bytes → ℕ
select_shard_by_key crc32c num_shards key = crc32c key % num_shards
