-- ===== src/Cache.antt =====
-- tools/cache-consolidator: the .wdb caches, read, rebuilt and checked, and the merge's commit.
pub mod Wdb
pub mod Rebuild
pub mod Checkpoint
pub mod Merge
pub mod Gather
pub mod Tsv
pub mod Winners
mod Tests
