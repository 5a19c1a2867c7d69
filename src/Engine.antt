-- ===== src/Engine.antt =====
-- The engine: cpp/include/faircross/engine and cpp/src/engine.
pub mod Batch
pub mod Auction
pub mod Partition
pub mod Allocation
pub mod Fills
pub mod OracleValidation
pub mod Transition
pub mod Checker
pub mod Accounting
