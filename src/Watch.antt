-- ===== src/Watch.antt =====
-- client/watch.go: subscribers, their event queues, and the watch stream.
pub mod Queue
pub mod Stream
pub mod Subscribers
pub mod Session
