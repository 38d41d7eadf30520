-- ===== src/Links.antt =====
-- The changes that `SmartMatcher` of src/services/reconciliation/SmartMatcher.ts makes on request:
-- manual matches, reversal pairs and reviews, over the table of bank transactions.
pub mod Operations
pub mod Reviews
pub mod Pairs
pub mod Lookup
pub mod Removal
pub mod Reversal
pub mod Manual
pub mod Candidates
mod Tests
