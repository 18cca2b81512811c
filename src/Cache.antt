-- ===== src/Cache.antt =====
-- codex_shim/chatgpt_conversation_cache.py: snapshots of conversations, in memory and on disk.
-- `Segment` has the file names, `State` the fields and their bookkeeping, `Index` the rebuilding of
-- the index, `Store` the methods; the proofs are in the other children.
pub mod Segment
pub mod State
pub mod Index
pub mod Store
pub mod Invariant
pub mod Rebuild
pub mod Eviction
pub mod Methods
pub mod Promises
