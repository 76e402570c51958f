-- ===== src/Trading/Executor.antt =====
-- The order executor (src/services/order_executor.py). What the broker's client answers during a
-- call is the record `Client`; logging, the dashboard callback and the time series, whose failures
-- the code swallows, are left out.
pub mod Positions
pub mod Submission
pub mod Clients
pub mod Events
pub mod Retry
pub mod Settled
pub mod Ended
pub mod Sole
pub mod Races
pub mod Notices
pub mod Renamed
