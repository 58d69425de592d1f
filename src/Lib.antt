-- ===== src/Lib.antt =====
-- lv-logdb: an append-only log. Producers append records to in-memory rings, one per shard; a sealer
-- thread links the records of a ring by a keyed hash; a committer thread writes them to segment
-- files; recovery scans the last segment file when the log opens.
--
-- Parts, and the code that they model:
--   Format         logdb/src/storage/format.rs, logdb/src/record.rs: segment headers and records as
--                  bytes. `serialize`, `deserialize`, `serialize_record`, `deserialize_record` and the
--                  constants carry the names of the source.
--   Recovery.Scan  logdb/src/recovery.rs: `scan_last_segment` on raw segments. The loop's variables are
--                  the record `Scan`; `raw_round` is one pass of the loop, with a helper for each branch.
--   Recovery.Frames the same on compressed or encrypted segments, and the choice between the two layouts;
--                  `frame_round` is one pass over the frames, `record_round` one over the records of a frame.
--                  Decode is `decode_frame_payload` of logdb/src/reader/mod.rs.
--   Recovery.Shard `recover_shard`: the headers, the scan of the last segment, and the manager that goes on in it;
--                  Recovery.Keys is the choice of the chain key, with `KeyRing` and `xor32` of logdb/src/lib.rs.
--   Shard          logdb/src/shard.rs: record ids and routing by key; Map is `ShardMap`, the rings of all
--                  shards, with a claim on one, also of a batch, as a single step.
--   Ring           logdb/src/ring/mod.rs and slot.rs: a ring, its slots and cursors. Ring.System is the
--                  step relation of any number of producers, the sealer and the committer on one ring:
--                  each load, store and compare-and-swap is a step of its own.
--   Pipeline       logdb/src/pipeline/sealer.rs: the rounds of the sealer, and the check of a chain;
--                  logdb/src/pipeline/signal.rs: Flush is `FlushSignal`, Shutdown is `ShutdownState` with
--                  the callers of `append` and `drain` (logdb/src/lib.rs) as a step relation;
--                  logdb/src/pipeline/committer.rs: Committer.Round is one round of the loop
--                  of `run_committer`, over the shards with their rings and segment managers, for what
--                  the round sees from outside (`Moment`); Round.State is its state, Round.Health is
--                  logdb/src/health.rs.
--   Storage.Index  logdb/src/storage/index.rs: the sparse index, its file and its search. The search of
--                  the standard library is its loop, which halves the size; the size is fuel enough.
--   Storage.Segments logdb/src/storage/mod.rs: `SegmentManager` as a record with its directory
--                  (Storage.Disk), a list of files by segment id. Append has `append_batch` and
--                  `maybe_prepare_next`, Roll has `roll`, retention and truncation, Sync the syncs, Open the
--                  constructors. Manager says what holds between two calls. A file knows whether it has
--                  bytes that were not synced.
--   Broker.Coordinator logdb-broker/src/coordinator.rs: `GroupState`, its members, the shards of each and
--                  their offsets; Registry has the groups by key (`CoordinatorRegistry`). A rebalance is one
--                  function for each step that the source numbers. Its `while` loops run for the number
--                  of shards above or below the target.
--   Server         logdbd/src/record.rs: `encode_record` and `decode_record`; tombstone.rs and quota.rs:
--                  the trackers; Streams is the append of logdbd/src/storage.rs under `append`,
--                  `batch_append` and `delete_stream` of logdbd/src/service.rs, each as a run that no
--                  other handler interrupts, with the trackers that logdbd/src/main.rs makes from the
--                  records that it reads at a start. Streams/Handlers has the same handlers step by
--                  step, since the source holds no lock over them; Streams/Amid has a batch with the
--                  steps of other handlers between its own. The log is the list of records that it
--                  took; a request says whether it is taken.
--   Prelude        what the parts share; Tests: the theorems at concrete inputs.
--
-- Conventions. A `u64` is a number below 2 ^ 64, with wrap-around written out; a byte string is a list
-- of numbers. The functions of the crates crc32c, blake3, sha2, zstd and aes-gcm and the ages of files are
-- parameters; where a theorem needs it, the checksum is bounded by its type. Loops of the source are
-- structural, or run on fuel: the scan on as many rounds as the file has bytes, since a round takes at
-- least 8 of them, and the loop over a frame on as many as it has bytes; `scan_published` on the size
-- of the ring, at which the code itself stops; `highest_published_contiguous` on any fuel above the
-- distance to the producers' cursor.
--
-- Not modelled: memory orders weaker than sequential consistency, back-off and waiting, failures of
-- the file system other than missing and existing files, the readers, the rest of the server (roles,
-- reads, queries, replication), and the clients.
mod Prelude
pub mod Format
pub mod Pipeline
pub mod Recovery
pub mod Shard
pub mod Storage
pub mod Broker
pub mod Server
pub mod Ring
mod Tests
