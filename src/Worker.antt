-- ===== src/Worker.antt =====
-- src/quant_pilot/workers: the worker and its jobs.
pub mod Jobs
pub mod Backtest
pub mod Ingest
pub mod Compute
pub mod Prices
pub mod Redis
pub mod Unpriced
mod Tests
mod IngestTests
