-- ===== src/Download.antt =====
-- internal/downloader: how a config item's content comes to a file or to memory.
pub mod Body
pub mod Ranges
pub mod Http
pub mod Exec
pub mod Async
mod Tests
