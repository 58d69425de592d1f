-- ===== src/Pipeline.antt =====
-- logdb/src/pipeline: the background threads of a database and what they share.
pub mod Sealer
pub mod Shutdown
pub mod Flush
pub mod Committer
