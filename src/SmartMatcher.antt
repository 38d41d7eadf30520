-- ===== src/SmartMatcher.antt =====
-- `SmartMatcher` of src/services/reconciliation/SmartMatcher.ts: the pairing of the bank
-- transactions of a goal with its goal transactions, part by part.
pub mod Tolerance
pub mod Combination
pub mod Groups
pub mod Passes
pub mod Splits
pub mod Report
pub mod Steps
pub mod Refines
pub mod Once
pub mod Sound
pub mod Maximal
mod Tests
