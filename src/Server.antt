-- ===== src/Server.antt =====
-- logdbd: the server on top of the log.
pub mod Record
pub mod Tombstone
pub mod Quota
pub mod Streams
