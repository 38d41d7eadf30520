-- ===== src/BankUpload.antt =====
-- The upload of a file of bank transactions, src/services/bank-upload/.
pub mod Types
pub mod Validator
pub mod Repository
pub mod Batches
pub mod Processor
mod Tests
