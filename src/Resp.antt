-- ===== src/Resp.antt =====
-- The RESP2 protocol: include/veloxdb/protocol/resp.h and src/protocol/resp.cpp.
pub mod Types
pub mod Encode
pub mod Parser
