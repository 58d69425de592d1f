-- ===== src/Tests/Shard.antt =====
-- Record ids (logdb/src/shard.rs) of four shards, and the claims on two new rings.
use lv_logdb.Prelude.{
  ℕ, zero, suc, ◌+◌, ◌*◌, ◌^◌, ◌<◌, ◌≡◌, refl, true, some, err, List, [], ◌∷◌, arith,
}
use lv_logdb.Ring.{init, claim_full, claim_batch_full, consume_watermark}
use lv_logdb.Shard.{leading_zeros, shard_bits, encode_record_id}
use lv_logdb.Shard.Map.{
  ShardMap, next_power_of_two, new_with_initial, new, claim, take_batch, claim_on_shard,
  claim_batch, queue_full, Request, one, batch, batch_ids, claim_all, max_producer_cursor,
  min_durable_cursor,
}
use lv_logdb.Shard.Map.Unique.{HasRoom, cursor, AreDistinct, claim_all-AreDistinct}

-- Two new rings.
abbrev two_rings : ShardMap
two_rings = record { rings = init 16 true 0 ∷ init 16 true 0 ∷ []; bits = 1 }

new-two_rings : new 2 32 true 0 ≡ some two_rings
unfolding new new_with_initial next_power_of_two leading_zeros shard_bits
new-two_rings = refl

two_rings-HasRoom : HasRoom 5 two_rings
unfolding init
two_rings-HasRoom = record { shards_in = omega arith; numbers_in = numbers }
  where
    numbers : (s : ℕ) → (cursor two_rings s + 5) * 2 < 2 ^ 64
    numbers zero = omega arith
    numbers (suc zero) = omega arith
    numbers (suc (suc s)) = omega arith

-- A batch between two claims.
abbrev requests : List Request
requests = one 0 ∷ batch 1 3 ∷ one 0 ∷ []

claim_all-two_rings : claim_all requests two_rings ≡ 0 ∷ 1 ∷ 3 ∷ 5 ∷ 2 ∷ []
unfolding claim_all claim_on_shard claim claim_batch take_batch init claim_full claim_batch_full
    consume_watermark encode_record_id batch_ids
claim_all-two_rings = refl

too_large : (claim_batch 0 17 two_rings).0 ≡ err queue_full
unfolding claim_batch take_batch init
too_large = refl

max_producer_cursor-two_rings : max_producer_cursor (claim_batch 1 3 two_rings).1 ≡ 3
unfolding claim_batch take_batch init claim_batch_full consume_watermark
max_producer_cursor-two_rings = refl

min_durable_cursor-two_rings : min_durable_cursor two_rings ≡ 0
unfolding init
min_durable_cursor-two_rings = refl

claim_all-AreDistinct_example : AreDistinct (claim_all requests two_rings)
claim_all-AreDistinct_example = claim_all-AreDistinct requests two_rings two_rings-HasRoom
