-- ===== src/Storage.antt =====
-- The sharded storage engine: include/veloxdb/storage/storage_engine.h and
-- src/storage/storage_engine.cpp.
pub mod Types
pub mod Time
pub mod Table
pub mod Held
pub mod Sweep
pub mod Engine
pub mod Messages
