-- ===== src/Net.antt =====
-- The network side of the server: src/net/tcp_server.cpp.
pub mod Connection
pub mod Worker
pub mod Accept
