-- ===== src/Tests/Committer.antt =====
-- Rounds of the committer (logdb/src/pipeline/committer.rs) at concrete inputs: a shard with one record that is not
-- committed, and two shards of which the first has one that is not durable.
use lv_logdb.Prelude.{ℕ, ◌≡◌, refl, true, false, Option, none, some, [], ◌∷◌, arith}
use lv_logdb.Ring.{init}
use lv_logdb.Pipeline.Flush.{new}
use lv_logdb.Pipeline.Committer.Round.{
  Committer, CommitShard, Moment, CommitTrigger, batch, Turn, next, drained, round, turn,
  any_uncommitted, any_unsynced, durable_of,
}
use lv_logdb.Pipeline.Committer.Cursors.{IsCommitter}
use lv_logdb.Pipeline.Committer.Advance.{TurnAdvanced}
use lv_logdb.Pipeline.Committer.Returns.{round-TurnAdvanced}
use lv_logdb.Pipeline.Committer.Stopped.{Stopped, turn-Stopped}
use lv_logdb.Pipeline.Committer.Stall.{IsStalled, turn-IsStalled}
use lv_logdb.Pipeline.Committer.Durable.{TurnDurableSafe}
use lv_logdb.Pipeline.Committer.Safe.{turn-DurableSafe}
use lv_logdb.Storage.Segments.Open.Created.{create_manager-IsManager}
use lv_logdb.Storage.Segments.{keep_all}
use lv_logdb.Ring.System.{start}
use lv_logdb.Ring.System.Inv.{IsRing}
use lv_logdb.Ring.System.Safety.{Reach-Inv}
use lv_logdb.Tests.Data.{test_crc, test_key}
use lv_logdb.Tests.Ring.{one_public, one_public-IsRing}
use lv_logdb.Tests.Segments.{fresh_manager, ring, one_view, no_frames}

abbrev no_age : ℕ → Option ℕ
no_age id = none

abbrev in_one : CommitShard
in_one = record { ring = ring; manager = fresh_manager; committed = 40; durable = 40 }

abbrev trigger : CommitTrigger
trigger = record { bytes = 262144; records = 1024; interval = 10; durability = batch }

abbrev closing : Moment
closing = record { now = 100; draining = true; checkpoint = 0; enospc = false; buf_cap = λ s. 1024 }

abbrev over : CommitShard → Committer
over s = record {
  shards = s ∷ [];
  flush = new 1;
  health = record { code = 0; error_ts = 0 };
  pending_since = none;
  current_shard = 0;
}

-- The ring of one published record, between its threads.
abbrev published : CommitShard
published = record { ring = one_public.ring; manager = fresh_manager; committed = 1; durable = 1 }

published-IsCommitter : IsCommitter (over published)
unfolding init new
published-IsCommitter = record {
  shards_in = (record { behind = omega arith; committed_is = refl; durable_is = refl }, tt);
  backed = omega arith;
}

-- A shard that nothing was appended to, with all cursors at 0.
abbrev unused : CommitShard
unused = record { ring = init 16 false 0; manager = fresh_manager; committed = 0; durable = 0 }

unused-IsRing : IsRing 4 unused.ring
unused-IsRing =
    (Reach-Inv {k = 4} {hashed = false} {initial = 0} (omega arith) (omega arith) start).ring_ok

abbrev with_unused : Committer
with_unused = record (over published) { shards = published ∷ unused ∷ []; flush = new 2 }

with_unused-IsCommitter : IsCommitter with_unused
unfolding init new
with_unused-IsCommitter = record {
  shards_in = (
    record { behind = omega arith; committed_is = refl; durable_is = refl },
    (record { behind = omega arith; committed_is = refl; durable_is = refl }, tt),
  );
  backed = (omega arith, (omega arith, tt));
}

round-TurnAdvanced_example :
    (o : Turn) × (round test_crc no_frames no_age 1 20 trigger closing with_unused ≡ some o)
    × TurnAdvanced with_unused o
unfolding init
round-TurnAdvanced_example =
    round-TurnAdvanced test_crc no_frames no_age 1 20 trigger closing with_unused
      with_unused-IsCommitter
      (
        record { k = 4; ring_in = one_public-IsRing; enough = omega arith },
        (record { k = 4; ring_in = unused-IsRing; enough = omega arith }, tt),
      )

turn-Stopped_example :
    Stopped closing
      (1 ∷ [])
      (turn test_crc no_frames no_age 0 trigger closing (1 ∷ []) (over published))
turn-Stopped_example =
    turn-Stopped test_crc no_frames no_age 0 trigger closing (1 ∷ []) (over published) (omega arith)
      published-IsCommitter

turn-DurableSafe_example :
    TurnDurableSafe
      (over in_one)
      (turn test_crc no_frames no_age 0 trigger closing (41 ∷ []) (over in_one))
turn-DurableSafe_example =
    turn-DurableSafe test_crc no_frames no_age 0 trigger closing (41 ∷ []) (over in_one)
      (omega arith)
      (
        record {
          manager_in =
              (create_manager-IsManager test_crc 4096 false false none test_key keep_all 40 refl
                (omega arith)).1;
          raw = (refl, refl);
          next_id = omega arith;
          size_in = omega arith;
          room = omega arith;
          records_in = one_view;
        },
        tt,
      )

-- The first shard has a record that is not durable, and it is the turn of the second.
abbrev behind : Committer
behind = record (over in_one) {
  shards = record in_one { committed = 41 } ∷ in_one ∷ [];
  flush = new 2;
  current_shard = 1;
}

turn-IsStalled_example :
    (turn test_crc no_frames no_age 1 trigger closing (41 ∷ 40 ∷ []) behind ≡ next (drained behind))
    × IsStalled trigger (41 ∷ 40 ∷ []) (drained behind)
    × (durable_of (drained behind).shards ≡ durable_of behind.shards)
unfolding any_uncommitted any_unsynced
turn-IsStalled_example =
    turn-IsStalled test_crc no_frames no_age 1 trigger closing (41 ∷ 40 ∷ []) behind
      behind-IsStalled
  where
    behind-IsStalled : IsStalled trigger (41 ∷ 40 ∷ []) behind
    behind-IsStalled = record {
      mode = tt;
      inside = omega arith;
      same = refl;
      committed = refl;
      unsynced = refl;
      own = refl;
    }
