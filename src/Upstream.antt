-- ===== src/Upstream.antt =====
-- internal/upstream: the connection to the feed server.
pub mod Balancer
pub mod Blocker
pub mod Client
mod Tests
