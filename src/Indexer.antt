-- ===== src/Indexer.antt =====
-- indexer/src, the service that polls the chain and serves it as JSON.
pub mod Stats
pub mod Store
pub mod Specs
pub mod Poller
mod Tests
