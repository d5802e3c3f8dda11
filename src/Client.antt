-- ===== src/Client.antt =====
-- client: the configuration client's own calls, its releases, and the file cache behind them.
pub mod Kv
pub mod Cache
pub mod Construct
pub mod Requests
pub mod Reader
