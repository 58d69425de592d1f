-- ===== src/Broker.antt =====
-- logdb-broker: consumer groups, and which of their members reads which shard.
pub mod Coordinator
