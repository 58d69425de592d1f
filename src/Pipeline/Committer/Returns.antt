-- ===== src/Pipeline/Committer/Returns.antt =====
-- A round of the committer (logdb/src/pipeline/committer.rs) on rings between their threads.
use lv_logdb.Prelude.{
  ℕ, ◌+◌, ◌^◌, ◌≤◌, ◌<◌, ◌≡◌, refl, sym, ap, ◌∙◌, Option, some, List, [], ◌∷◌, Bytes, All, arith,
}
use lv_logdb.Ring.System.Inv.{IsRing}
use lv_logdb.Pipeline.Committer.{available_hi}
use lv_logdb.Pipeline.Committer.Batch.{available_hi-choose_batch_end}
use lv_logdb.Pipeline.Committer.Round.{
  Committer, CommitShard, Moment, CommitTrigger, Turn, poll_rings, round, turn,
}
use lv_logdb.Pipeline.Committer.Cursors.{IsShard, IsCommitter}
use lv_logdb.Pipeline.Committer.Advance.{TurnAdvanced}
use lv_logdb.Pipeline.Committer.Turned.{turn-Advanced}

-- The ring is one of 2 ^ k slots between its threads, and the fuel is more than what it holds.
pub record IsPolled (fuel : ℕ) (s : CommitShard) : Type 0 where
  pub k : ℕ
  pub ring_in : IsRing k s.ring
  pub enough : s.ring.producer_cursor < s.committed + fuel

-- What was found lies between the cursors.
abbrev Between : List ℕ → List CommitShard → Type 0
Between [] [] = Unit
Between [] (s ∷ ss) = ⊥
Between (a ∷ avails) [] = ⊥
Between (a ∷ avails) (s ∷ ss) = (s.committed ≤ a) × (a ≤ s.ring.producer_cursor) × Between avails ss

poll_rings-Between :
    (fuel : ℕ) (ss : List CommitShard)
    → All IsShard ss
    → All (IsPolled fuel) ss
    → (avails : List ℕ) × (poll_rings fuel ss ≡ some avails)
      × Between avails ss
      × All (λ a. a < 2 ^ 64) avails
unfolding poll_rings
poll_rings-Between fuel [] v p = ([], refl, tt, tt)
poll_rings-Between fuel (s ∷ ss) (v, vs) (p, ps) =
    let at = v.committed_is in
    let one = available_hi-choose_batch_end p.ring_in fuel 0 (omega (arith, p.enough)) in
    let found : available_hi fuel s.ring s.committed ≡ some one.0 =
      ap (available_hi fuel s.ring) (sym at) ∙ one.1 in
    let rest = poll_rings-Between fuel ss vs ps in
    let others = rest.1 in
    (
      one.0 ∷ rest.0,
      rw (poll_rings, found, others) refl,
      (omega (arith, one.2), one.3, rest.2),
      (omega (arith, one.3, p.ring_in.small), rest.3),
    )

-- A round of the committer on rings between their threads, fresh ones included, returns on fuel above what each ring holds,
-- with every trigger and at every moment. Unless `append_batch` panics, it keeps this: each shard's
-- durable cursor is at most its committed one, the ring has both, and each flush is told only of durable
-- records. No cursor goes back. So it is also when the round fails half-way, rolls or stops.
pub round-TurnAdvanced :
    (crc32c : Bytes → ℕ) (encode_payload : Bytes → Option Bytes) (age : ℕ → Option ℕ)
    (shard_bits fuel : ℕ) (t : CommitTrigger) (w : Moment) (c : Committer)
    → IsCommitter c
    → All (IsPolled fuel) c.shards
    → (o : Turn) × (round crc32c encode_payload age shard_bits fuel t w c ≡ some o)
      × TurnAdvanced c o
unfolding round
round-TurnAdvanced crc32c encode_payload age shard_bits fuel t w c i p =
    let found = poll_rings-Between fuel c.shards i.shards_in p in
    let e = found.1 in
    (
      turn crc32c encode_payload age shard_bits t w found.0 c,
      rw (round, e) refl,
      turn-Advanced crc32c encode_payload age shard_bits t w found.0 c found.3 i,
    )
