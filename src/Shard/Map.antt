-- ===== src/Shard/Map.antt =====
-- `ShardMap` of logdb/src/shard.rs: the rings of all shards, and record ids from their claims. A claim is one step,
-- its compare-and-swap; where the ring is full, the policy `Drop` fails and `Block` tries again.
pub mod Unique
use lv_logdb.Prelude.{
  ℕ, zero, suc, min, ltb, ◌||◌, ◌++◌, ◌+◌, ◌-◌, ◌/◌, ◌%◌, ◌^◌, max, Bool, ◌&&◌, Option, none, some,
  List, [], ◌∷◌, map, length, get_elem?, set, replicate, leb, ◌==◌, if◌then◌else◌, Result, ok, err,
}
use lv_logdb.Ring.{Ring, init, claim_full, claim_batch_full, consume_watermark}
use lv_logdb.Shard.{leading_zeros, shard_bits, encode_record_id}

pub record ShardMap : Type 0 where
  pub rings : List Ring
  pub bits : ℕ

-- `usize::next_power_of_two`, where it does not overflow
unfoldable pub next_power_of_two : ℕ → ℕ
next_power_of_two n = if leb n 1 then 1 else 2 ^ (64 - leading_zeros 64 (n - 1))

-- The two assertions are the test.
unfoldable pub new_with_initial : ℕ → ℕ → Bool → List ℕ → Option ShardMap
new_with_initial num_shards ring_size hash_enabled initial_seqs =
    let per_shard_slots = max (next_power_of_two (ring_size / num_shards)) 16 in
    if leb 1 num_shards && (length initial_seqs == num_shards)
    then some (record {
      rings = map (init per_shard_slots hash_enabled) initial_seqs;
      bits = shard_bits num_shards;
    })
    else none

unfoldable pub new : ℕ → ℕ → Bool → ℕ → Option ShardMap
new num_shards ring_size hash_enabled initial_seq =
    new_with_initial num_shards ring_size hash_enabled (replicate num_shards initial_seq)

-- `Ring::claim`
unfoldable pub claim : Ring → Option ℕ × Ring
claim r =
    if claim_full r.ring_size r.producer_cursor (consume_watermark r)
    then (none, r)
    else (some r.producer_cursor, record r { producer_cursor = (r.producer_cursor + 1) % 2 ^ 64 })

-- `Ring::claim_batch`, behind its assertion. A batch larger than the ring fails under either policy.
unfoldable pub take_batch : ℕ → Ring → Option ℕ × Ring
take_batch n r =
    if ltb r.ring_size n || claim_batch_full r.ring_size n r.producer_cursor (consume_watermark r)
    then (none, r)
    else (some r.producer_cursor, record r { producer_cursor = (r.producer_cursor + n) % 2 ^ 64 })

-- The last two are panics.
pub data ClaimError : Type 0 where
  queue_full out_of_range empty_batch : ClaimError

-- The record id, the shard and the number there.
abbrev pub Claim : Type 0
Claim = Result ClaimError (ℕ × ℕ × ℕ)

abbrev pub identified : ℕ → ShardMap → Option ℕ × Ring → Claim × ShardMap
identified shard_id m (none, r) = (err queue_full, m)
identified shard_id m (some local_seq, r) = (
  ok (encode_record_id shard_id local_seq m.bits, shard_id, local_seq),
  record m { rings = set m.rings shard_id r },
)

unfoldable pub claim_on_shard : ℕ → ShardMap → Claim × ShardMap
claim_on_shard shard_id m = elim (get_elem? m.rings shard_id) [
  | none ↦ (err out_of_range, m)
  | some r ↦ identified shard_id m (claim r)
]

-- On the shard that the thread has; the first number of the batch stands for it.
unfoldable pub claim_batch : ℕ → ℕ → ShardMap → Claim × ShardMap
claim_batch shard_id n m = elim (get_elem? m.rings shard_id) [
  | none ↦ (err out_of_range, m)
  | some r ↦ if n == 0 then (err empty_batch, m) else identified shard_id m (take_batch n r)
]

-- A call of `claim_on_shard` or `claim_batch`, the shard first.
pub data Request : Type 0 where
  one : ℕ → Request
  batch : ℕ → ℕ → Request

abbrev pub shard_of : Request → ℕ
shard_of (one shard_id) = shard_id
shard_of (batch shard_id n) = shard_id

abbrev pub count_of : Request → ℕ
count_of (one shard_id) = 1
count_of (batch shard_id n) = n

abbrev pub answer : Request → ShardMap → Claim × ShardMap
answer (one shard_id) m = claim_on_shard shard_id m
answer (batch shard_id n) m = claim_batch shard_id n m

-- The record ids of `n` numbers from one on, as `append_batch` of logdb/src/lib.rs makes them.
unfoldable pub batch_ids : ℕ → ℕ → ℕ → ℕ → List ℕ
batch_ids zero shard_id local_seq bits = []
batch_ids (suc n) shard_id local_seq bits =
    encode_record_id shard_id local_seq bits ∷ batch_ids n shard_id (local_seq + 1) bits

abbrev pub with_ids : ℕ → ℕ → Claim → List ℕ → List ℕ
with_ids n bits (err e) ids = ids
with_ids n bits (ok t) ids = batch_ids n t.1 t.2 bits ++ ids

-- The record ids of these calls, one after the other.
unfoldable pub claim_all : List Request → ShardMap → List ℕ
claim_all [] m = []
claim_all (q ∷ qs) m =
    let done = answer q m in
    let rest = claim_all qs done.1 in with_ids (count_of q) m.bits done.0 rest

abbrev pub max_cursor : List ℕ → ℕ
max_cursor [] = 0
max_cursor (n ∷ ns) = max n (max_cursor ns)

abbrev pub min_from : ℕ → List ℕ → ℕ
min_from n [] = n
min_from n (k ∷ ks) = min n (min_from k ks)

-- `.min().unwrap_or(0)`
abbrev pub min_or_zero : List ℕ → ℕ
min_or_zero [] = 0
min_or_zero (n ∷ ns) = min_from n ns

abbrev pub producer_cursors : ShardMap → List ℕ
producer_cursors m = map (λ (r : Ring). r.producer_cursor) m.rings

abbrev pub durable_cursors : ShardMap → List ℕ
durable_cursors m = map (λ (r : Ring). r.durable_cursor) m.rings

abbrev pub max_producer_cursor : ShardMap → ℕ
max_producer_cursor m = max_cursor (producer_cursors m)

abbrev pub min_committed_cursor : ShardMap → ℕ
min_committed_cursor m = min_or_zero (map (λ (r : Ring). r.committed_cursor) m.rings)

abbrev pub min_durable_cursor : ShardMap → ℕ
min_durable_cursor m = min_or_zero (durable_cursors m)
