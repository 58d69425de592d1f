-- ===== src/Tests/Pipeline.antt =====
-- The sealer and the committer (logdb/src/pipeline) on a ring with one published record.
use lv_logdb.Prelude.{
  ℕ, ◌≡◌, Bytes, some, true, replicate, arith, refl, ◌↔◌, [], ◌∷◌, ◌++◌, List, bytes_eq, to_le,
}
use lv_logdb.Ring.{Ring, init}
use lv_logdb.Pipeline.Sealer.{seal_round}
use lv_logdb.Pipeline.Sealer.Sealed.{Sealed, seal_round-IsSealed}
use lv_logdb.Pipeline.Sealer.Verify.{chain_of, Linked, verify_chain-Linked}
use lv_logdb.Pipeline.Sealer.{verify_chain, verify_loop, blake3_keyed_chain}
use lv_logdb.Tests.Data.{test_hash, test_key}
use lv_logdb.Tests.Ring.{one_public, one_public-IsRing, one_public-published}

one_public-size : one_public.ring.ring_size ≡ 16
unfolding init
one_public-size = refl

seal_round-IsSealed_example :
    (done : Ring × Bytes × ℕ) × (seal_round test_hash test_key one_public.ring (replicate 32 0) 1
      ≡ some done)
    × Sealed test_hash test_key one_public.ring (replicate 32 0) 1 done
seal_round-IsSealed_example =
    seal_round-IsSealed test_hash test_key one_public-IsRing (replicate 32 0) 1 (omega arith)
      (omega (arith, one_public-size)) one_public-published

-- The SHA-256 of the test.
abbrev test_sha : Bytes → Bytes
test_sha = test_hash []

-- Two records, each with the hash of the one before and its content.
abbrev chained : List (Bytes × Bytes)
chained =
    (5 ∷ [], test_hash test_key (test_key ++ (5 ∷ [])))
    ∷ (6 ∷ [], test_hash test_key (test_hash test_key (test_key ++ (5 ∷ [])) ++ (6 ∷ [])))
    ∷ []

verify_chain-Linked_example :
    (verify_chain test_hash test_sha chained test_key 2 ≡ true)
    ↔ Linked (chain_of test_hash test_sha test_key 2) test_key chained
verify_chain-Linked_example = verify_chain-Linked test_hash test_sha test_key 2 chained

chained-verified : verify_chain test_hash test_sha chained test_key 2 ≡ true
unfolding verify_chain verify_loop blake3_keyed_chain bytes_eq to_le
chained-verified = refl

one_public-committed : one_public.ring.committed_cursor ≡ 1
unfolding init
one_public-committed = refl
