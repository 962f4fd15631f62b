-- ===== src/Upstream.antt =====
-- src/upstream: the parser of server-sent events, the client, and the address of a backend.
pub mod Sse
pub mod Client
pub mod Target
pub mod Usage
pub mod Requests
