-- ===== src/Upload.antt =====
-- The upload of a file of fund transactions, src/services/fund-upload/: the detection and the
-- creation of new entities, the repository of transactions, the batch and its processing.
pub mod Records
pub mod Batches
pub mod Detector
pub mod Creator
pub mod Repository
pub mod Summary
pub mod Processor
pub mod Routes
pub mod Rollback
mod Tests
