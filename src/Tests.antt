-- ===== src/Tests.antt =====
-- The theorems at concrete inputs: a segment file of two records, ids of four shards, and a ring on
-- which one producer has published; and a group of two consumers.
mod Data
mod Format
mod Recovery
mod Recover
mod Keys
mod Shard
mod Ring
mod Pipeline
mod Storage
mod Segments
mod Shutdown
mod Flush
mod Broker
mod Committer
mod Server
