-- ===== src/BankMatch.antt =====
-- `BankReconciliationMatcher` of
-- src/services/reconciliation/BankReconciliationMatcher.ts: a bank transaction against the fund
-- transactions of its goal and transaction id. Amounts are in hundredths of a shilling, percentages
-- in whole percents, times in milliseconds. The texts for people are left out.
pub mod Types
pub mod Detection
pub mod Matcher
pub mod Scores
pub mod Approval
mod Tests
