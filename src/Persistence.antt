-- ===== src/Persistence.antt =====
-- The append-only file and what recovery does with it.
pub mod Aof
pub mod Files
pub mod Manifest
pub mod Replay
pub mod Rewrite
pub mod Snapshot
pub mod Store
pub mod Recovery
