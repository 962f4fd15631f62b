-- ===== src/Server.antt =====
-- src/server: the writer of server-sent events, and the gateway.
pub mod SseWriter
pub mod Gateway
pub mod Listener
pub mod Tests
