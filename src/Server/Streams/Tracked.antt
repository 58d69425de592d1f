-- ===== src/Server/Streams/Tracked.antt =====
-- The trackers of logdbd/src/service.rs while the server runs, and the ones that logdbd/src/main.rs makes from the
-- records.
pub mod Stored
use lv_logdb.Prelude.{
  ℕ, ◌+◌, ◌%◌, ◌^◌, ◌≤◌, ◌<◌, ◌≡◌, ◌≢◌, sym, ap, subst, All, All-mono, find-put_self, find-put_ne,
  ℕ_discrete, arith, List,
}
use lv_logdb.Server.Record.{DecodedRecord}
use lv_logdb.Server.Tombstone.{TombstoneTracker, cutoff, is_live, rebuild_from_records}
use lv_logdb.Server.Quota.{QuotaTracker, usage, seed_from_records}
use lv_logdb.Server.Streams.{Streams, next_or_one, next_seq, use_number}

next_seq-use_number :
    (st : ℕ) (s : Streams) → next_seq (use_number st s) st ≡ (next_seq s st + 1) % 2 ^ 64
unfolding next_seq use_number
next_seq-use_number st s = ap next_or_one (find-put_self ℕ_discrete st _ s.next_seqs)

next_seq-use_number_ne :
    (j st : ℕ) (s : Streams) → j ≢ st → next_seq (use_number st s) j ≡ next_seq s j
unfolding next_seq use_number
next_seq-use_number_ne j st s n = ap next_or_one (find-put_ne ℕ_discrete j st _ s.next_seqs n)

-- The trackers that are made from some records.
abbrev pub tombstones_of : List DecodedRecord → TombstoneTracker
tombstones_of records = rebuild_from_records records

abbrev pub quota_of : List DecodedRecord → QuotaTracker
quota_of records = seed_from_records records (is_live (tombstones_of records))

-- Each stream is in one namespace.
module _ (ns_of : ℕ → ℕ) where
  -- These trackers have the cutoff and the usage of every stream as the server has them.
  pub record Agrees (tombstones : TombstoneTracker) (quota : QuotaTracker) (s : Streams)
      : Type 0 where
    pub cutoffs : (st : ℕ) → cutoff s.tombstones st ≡ cutoff tombstones st
    pub usages : (st : ℕ) → usage s.quota (ns_of st, st) ≡ usage quota (ns_of st, st)

  pub record IsTracked (n : ℕ) (s : Streams) : Type 0 where
    pub agrees : Agrees (tombstones_of s.records) (quota_of s.records) s
    pub numbers : (st : ℕ) → next_seq s st ≤ n
    pub below : All (λ r. r.seq < next_seq s r.stream_id) s.records
    pub above_cutoff : (st : ℕ) → cutoff s.tombstones st < next_seq s st

  pub IsTracked-le : (n m : ℕ) (s : Streams) → n ≤ m → IsTracked n s → IsTracked m s
  IsTracked-le n m s le tracked = record {
    agrees = tracked.agrees;
    numbers = λ st. let most = tracked.numbers st in omega arith;
    below = tracked.below;
    above_cutoff = tracked.above_cutoff;
  }

  -- A number is used, whatever becomes of the record.
  module _ (st n : ℕ) (s : Streams) (tracked : IsTracked n s) (small : n + 1 < 2 ^ 64) where
    pub next_seq-used : next_seq (use_number st s) st ≡ next_seq s st + 1
    next_seq-used = let most = tracked.numbers st in let e = next_seq-use_number st s in omega arith

    le-used : (j : ℕ) → next_seq s j ≤ next_seq (use_number st s) j
    le-used j = elim (ℕ_discrete j st) [
      | no d ↦ let e = next_seq-use_number_ne j st s d in omega arith
      | yes p ↦
          subst (λ i. next_seq s i ≤ next_seq (use_number st s) i) (sym p)
            (let e = next_seq-used in omega arith)
    ]

    pub used-le : (j : ℕ) → next_seq (use_number st s) j ≤ n + 1
    used-le j = elim (ℕ_discrete j st) [
      | no d ↦
          let e = next_seq-use_number_ne j st s d in let most = tracked.numbers j in omega arith
      | yes p ↦
          subst (λ i. next_seq (use_number st s) i ≤ n + 1) (sym p)
            (let e = next_seq-used in let most = tracked.numbers st in omega arith)
    ]

    pub cutoff-used : cutoff (use_number st s).tombstones st < next_seq s st
    unfolding use_number
    cutoff-used = tracked.above_cutoff st

    pub used-IsTracked : IsTracked (n + 1) (use_number st s)
    unfolding use_number
    used-IsTracked = record {
      agrees = record { cutoffs = tracked.agrees.cutoffs; usages = tracked.agrees.usages };
      numbers = used-le;
      below =
          All-mono _ _ (λ r lt. let le = le-used r.stream_id in omega arith) s.records
            tracked.below;
      above_cutoff = λ j. let le = le-used j in let lt = tracked.above_cutoff j in omega arith;
    }
