-- ===== src/Server/Streams/Tracked/Stored.antt =====
-- A record that is taken and the trackers of logdbd/src/service.rs: one that counts, and the record of a deletion.
use lv_logdb.Prelude.{
  ℕ, ◌+◌, ◌<◌, ◌≡◌, ◌≢◌, refl, sym, ap, subst, ◌∙◌, Bool, true, false, List, [], ◌∷◌, ◌++◌, length,
  All, All-mono, All-append_one, ltb, lt→ltb, le→ltb-false, find, ℕ_discrete, arith,
}
use lv_logdb.Server.Record.{DecodedRecord}
use lv_logdb.Server.Tombstone.{
  TombstoneTracker, is_tombstone, cutoff, is_live, record_tombstone, rebuild_loop,
}
use lv_logdb.Server.Tombstone.Rebuilt.{
  cutoff-record_tombstone, cutoff-record_tombstone_ne, cutoff-record_tombstone_ap, rebuild_one-live,
  rebuild_one-deleted, rebuild_loop-append,
}
use lv_logdb.Server.Quota.{Usage, usage, add, reset, key_of, seed_one, seed_loop}
use lv_logdb.Server.Quota.Seeded.{
  usage-add_ap, usage-reset_self, usage-reset_ne, usage-seed_loop_ap, usage-seed_loop_dead,
  seed_loop-append,
}
use lv_logdb.Server.Streams.{Streams, next_seq}
use lv_logdb.Server.Streams.Tracked.{IsTracked, tombstones_of, quota_of}

-- A record with a number above the cutoff counts.
seed_one-counted :
    (t : TombstoneTracker) (q : List ((ℕ × ℕ) × Usage)) (r : DecodedRecord)
    → is_tombstone r ≡ false
    → cutoff t r.stream_id < r.seq
    → seed_one (is_live t) q r ≡ add (key_of r) (length r.user_content) q
unfolding seed_one is_live
seed_one-counted t q r e lt = rw (e, lt→ltb (cutoff t r.stream_id) r.seq lt) refl

seed_one-deleted :
    (l : ℕ → ℕ → Bool) (q : List ((ℕ × ℕ) × Usage)) (r : DecodedRecord)
    → is_tombstone r ≡ true
    → seed_one l q r ≡ q
unfolding seed_one
seed_one-deleted l q r e = rw e refl

module _ (ns_of : ℕ → ℕ) where
  -- A record goes to the log; its number is the last one used and is above the cutoff.
  module _ (n : ℕ) (s : Streams) (tracked : IsTracked ns_of n s) (d : DecodedRecord)
      (is_last : d.seq + 1 ≡ next_seq s d.stream_id)
      (lt : cutoff s.tombstones d.stream_id < d.seq) where
    below-stored : All (λ r. r.seq < next_seq s r.stream_id) (s.records ++ (d ∷ []))
    below-stored = All-append_one _ s.records d tracked.below (omega arith)

    module _ (live : is_tombstone d ≡ false) where
      same_tombstones : rebuild_loop [] (s.records ++ (d ∷ [])) ≡ tombstones_of s.records
      same_tombstones =
          rebuild_loop-append [] s.records d ∙ rebuild_one-live (tombstones_of s.records) d live

      counted-quota :
          seed_loop (is_live (rebuild_loop [] (s.records ++ (d ∷ [])))) [] (s.records ++ (d ∷ []))
          ≡ add (key_of d) (length d.user_content) (quota_of s.records)
      counted-quota =
          ap (λ t. seed_loop (is_live t) [] (s.records ++ (d ∷ []))) same_tombstones
          ∙ seed_loop-append _ [] s.records d
          ∙ seed_one-counted (tombstones_of s.records) (quota_of s.records) d live
              (subst (λ c. c < d.seq) (tracked.agrees.cutoffs d.stream_id) lt)

      pub counted-IsTracked : IsTracked ns_of n (record s {
        records = s.records ++ (d ∷ []);
        quota = add (key_of d) (length d.user_content) s.quota;
      })
      unfolding next_seq
      counted-IsTracked = record {
        agrees = record {
          cutoffs = λ st. tracked.agrees.cutoffs st ∙ ap (λ t. cutoff t st) (sym same_tombstones);
          usages = λ st.
              usage-add_ap (ns_of st, st) (key_of d) (length d.user_content) s.quota
                (quota_of s.records) (tracked.agrees.usages st)
              ∙ ap (λ q. usage q (ns_of st, st)) (sym counted-quota);
        };
        numbers = tracked.numbers;
        below = below-stored;
        above_cutoff = tracked.above_cutoff;
      }

    module _ (dead : is_tombstone d ≡ true) (in_ns : d.namespace_id ≡ ns_of d.stream_id) where
      abbrev after : TombstoneTracker
      after = record_tombstone d.stream_id d.seq (tombstones_of s.records)

      deleted-tombstones : rebuild_loop [] (s.records ++ (d ∷ [])) ≡ after
      deleted-tombstones =
          rebuild_loop-append [] s.records d ∙ rebuild_one-deleted (tombstones_of s.records) d dead

      deleted-quota :
          seed_loop (is_live (rebuild_loop [] (s.records ++ (d ∷ [])))) [] (s.records ++ (d ∷ []))
          ≡ seed_loop (is_live after) [] s.records
      deleted-quota =
          ap (λ t. seed_loop (is_live t) [] (s.records ++ (d ∷ []))) deleted-tombstones
          ∙ seed_loop-append _ [] s.records d
          ∙ seed_one-deleted _ _ d dead

      cutoff-after : cutoff after d.stream_id ≡ d.seq
      cutoff-after =
          let e = tracked.agrees.cutoffs d.stream_id in
          let m = cutoff-record_tombstone d.stream_id d.seq (tombstones_of s.records) in omega arith

      is_live-dead :
          (r : DecodedRecord)
          → r.seq < next_seq s r.stream_id
          → d.stream_id ≡ r.stream_id
          → is_live after r.stream_id r.seq ≡ false
      unfolding is_live
      is_live-dead r under q =
          let at = subst (λ i. cutoff after i ≡ d.seq) q cutoff-after in
          let top = subst (λ i. d.seq + 1 ≡ next_seq s i) q is_last in
          le→ltb-false (cutoff after r.stream_id) r.seq (omega arith)

      is_live-same :
          (st : ℕ)
          → st ≢ d.stream_id
          → (r : DecodedRecord) → st ≡ r.stream_id
          → is_live (tombstones_of s.records) r.stream_id r.seq ≡ is_live after r.stream_id r.seq
      unfolding is_live
      is_live-same st ne r q =
          ap (λ c. ltb c r.seq)
            (sym (
              cutoff-record_tombstone_ne r.stream_id d.stream_id d.seq (tombstones_of s.records)
                (λ p. ne (q ∙ p))))

      -- The stream itself is empty, another one is as before.
      usages-deleted :
          (st : ℕ)
          → Dec (st ≡ d.stream_id)
          → usage (reset (key_of d) s.quota) (ns_of st, st)
            ≡ usage (seed_loop (is_live after) [] s.records) (ns_of st, st)
      unfolding usage find
      usages-deleted st (yes p) =
          subst
            (λ k.
              usage (reset (key_of d) s.quota) k ≡ usage (seed_loop (is_live after) [] s.records) k)
            (ap (λ i. (i, d.stream_id)) in_ns ∙ ap (λ i. (ns_of i, i)) (sym p))
            (usage-reset_self (key_of d) s.quota
              ∙ sym (
                  usage-seed_loop_dead (is_live after) (key_of d) [] s.records
                    (All-mono _ _ is_live-dead s.records tracked.below)))
      usages-deleted st (no ne) =
          usage-reset_ne (ns_of st, st) (key_of d) s.quota (λ p. ne (ap (λ k. k.1) p))
          ∙ tracked.agrees.usages st
          ∙ usage-seed_loop_ap (is_live (tombstones_of s.records)) (is_live after) (ns_of st, st) []
              [] s.records (All-mono _ _ (λ r under. is_live-same st ne r) s.records tracked.below)
              refl

      above-deleted :
          (st : ℕ)
          → Dec (st ≡ d.stream_id)
          → cutoff (record_tombstone d.stream_id d.seq s.tombstones) st < next_seq s st
      above-deleted st (yes p) =
          subst (λ i. cutoff (record_tombstone d.stream_id d.seq s.tombstones) i < next_seq s i)
            (sym p) (let m = cutoff-record_tombstone d.stream_id d.seq s.tombstones in omega arith)
      above-deleted st (no ne) =
          let e = cutoff-record_tombstone_ne st d.stream_id d.seq s.tombstones ne in
          let above = tracked.above_cutoff st in omega arith

      pub deleted-IsTracked : IsTracked ns_of n (record s {
        records = s.records ++ (d ∷ []);
        tombstones = record_tombstone d.stream_id d.seq s.tombstones;
        quota = reset (key_of d) s.quota;
      })
      unfolding next_seq
      deleted-IsTracked = record {
        agrees = record {
          cutoffs = λ st.
              cutoff-record_tombstone_ap st d.stream_id d.seq s.tombstones (tombstones_of s.records)
                (tracked.agrees.cutoffs st)
              ∙ ap (λ t. cutoff t st) (sym deleted-tombstones);
          usages = λ st.
              usages-deleted st (ℕ_discrete st d.stream_id)
              ∙ ap (λ q. usage q (ns_of st, st)) (sym deleted-quota);
        };
        numbers = tracked.numbers;
        below = below-stored;
        above_cutoff = λ st. above-deleted st (ℕ_discrete st d.stream_id);
      }
