-- ===== src/Trading.antt =====
-- The trading core: the records of src/models, the checks that an order passes, the risk limits,
-- the simulated broker and the order executor.
pub mod Division
pub mod Models
pub mod Checks
pub mod Risk
pub mod Simulator
pub mod AccountService
pub mod Executor
pub mod Batches
pub mod Monitor
