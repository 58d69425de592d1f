-- ===== src/Storage.antt =====
-- logdb/src/storage: the segment files of a shard and what stands beside them.
pub mod Index
pub mod Disk
pub mod Segments
