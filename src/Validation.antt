-- ===== src/Validation.antt =====
-- The validation of an upload of fund transactions: the two validators of
-- src/services/fund-upload/validators/ with the string, number and date tests of src/utils/.
pub mod Types
pub mod Strings
pub mod Fields
pub mod Batch
pub mod Accepted
pub mod Partition
pub mod Duplicates
pub mod GoalGroups
pub mod Agreement
pub mod Consistency
pub mod Distribution
mod Tests
