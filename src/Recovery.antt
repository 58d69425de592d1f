-- ===== src/Recovery.antt =====
-- logdb/src/recovery.rs: what is rebuilt from the segment files when a database opens.
pub mod Scan
pub mod Decode
pub mod Keys
pub mod Frames
pub mod Shard
