-- ===== src/Broker/Coordinator/Offsets.antt =====
-- The offsets of a group (`commit_offset` of logdb-broker/src/coordinator.rs).
use lv_logdb.Prelude.{
  ℕ, ◌≡◌, ◌≢◌, refl, ap, ◌∙◌, inl, inr, max, Bool-cases, ltb, ltb→lt, ltb-false→le, arith,
  ℕ_discrete, find, put, find-put_self, find-put_ne,
}
use lv_logdb.Broker.Coordinator.{GroupState}
use lv_logdb.Broker.Coordinator.Group.{or_zero, shard_offset, commit_offset}

module _ {ℓ} {K : Type ℓ} (dec : Discrete K) where
  -- Committing an offset sets the offset of its shard to the greater of the two, and says whether it
  -- was behind the new one; the offset of each other shard stays.
  pub commit_offset-max :
      (g : GroupState dec) (shard seq other : ℕ)
      → other ≢ shard
      → let r = commit_offset dec g shard seq in
        (shard_offset dec r.1 shard ≡ max (shard_offset dec g shard) seq)
        × (r.0 ≡ ltb (shard_offset dec g shard) seq)
        × (shard_offset dec r.1 other ≡ shard_offset dec g other)
  unfolding commit_offset shard_offset
  commit_offset-max g shard seq other n =
      let held = or_zero (find ℕ_discrete shard g.shard_offsets) in
      let entry = put ℕ_discrete shard held g.shard_offsets in
      elim (Bool-cases (ltb held seq)) [
        | inl ahead ↦ rw ahead (
          ap or_zero (find-put_self ℕ_discrete shard seq entry)
              ∙ omega (arith, ltb→lt held seq ahead),
          refl,
          ap or_zero (
              find-put_ne ℕ_discrete other shard seq entry n
              ∙ find-put_ne ℕ_discrete other shard held g.shard_offsets n),
        )
        | inr behind ↦ rw behind (
          ap or_zero (find-put_self ℕ_discrete shard held g.shard_offsets)
              ∙ omega (arith, ltb-false→le held seq behind),
          refl,
          ap or_zero (find-put_ne ℕ_discrete other shard held g.shard_offsets n),
        )
      ]
