-- ===== src/Tests.antt =====
-- Runs of the theorems on concrete inputs.
mod Samples
mod Rates
mod Hours
mod Checking
mod Trades
mod Orders
mod Monitoring
mod Batching
mod BarMaking
mod Pools
mod Engines
mod Charting
mod Feeds
