-- ===== src/BankUpload/Batches.antt =====
-- `BankUploadBatchManager`, src/services/bank-upload/database/BankUploadBatchManager.ts. An operation
-- throws where there is no batch with the id.
use xeno_reconciliation.Prelude.{
  ℕ, ◌≡◌, refl, Bool, true, Option, none, some, List, [], ◌∷◌, map, if◌then◌else◌, ◌==◌, nat_eq,
  list_eq, any, arith, ap, ◌∙◌, Bool-cases, inl, inr,
}
use xeno_reconciliation.Prelude.Int.{ℤ, pos}
use xeno_reconciliation.Prelude.Text.{Text}
use xeno_reconciliation.Upload.Records.{
  ProcessingStatus, queued, parsing, validating, processing, waiting_for_approval, completed,
  failed, canceled, ValidationStatus, validation_pending, validation_passed, validation_failed,
  ProcessingError, record_not_found, Database,
}
use xeno_reconciliation.BankUpload.Types.{ValidationError}

pub record BankSummary : Type 0 where
  pub total_amount : ℤ
  pub deposit_count : ℕ
  pub withdrawal_count : ℕ
  pub total_deposits : ℤ
  pub total_withdrawals : ℤ

-- The column `metadata`: what a step has written there. What was given at the creation is left out.
pub data BankMetadata : Type 0 where
  no_metadata : BankMetadata
  validation_metadata : ℕ → BankMetadata
  final_metadata : ℕ → ℕ → ℕ → BankSummary → BankMetadata

pub data BankErrorLog : Type 0 where
  bank_details : List ValidationError → BankErrorLog
  bank_message : ProcessingError → BankErrorLog

pub record BankUploadBatch : Type 0 where
  pub id : Text
  pub file_path : Text
  pub uploaded_by : Text
  pub processing_status : ProcessingStatus
  pub validation_status : ValidationStatus
  pub total_records : ℕ
  pub processed_records : ℕ
  pub failed_records : ℕ
  pub total_amount : ℤ
  pub validation_errors : Option BankErrorLog
  pub validation_warnings : List ValidationError
  pub uploaded_at : ℕ
  pub processing_started_at : Option ℕ
  pub processing_completed_at : Option ℕ
  pub metadata : BankMetadata

-- The tables with that of the bank's batches.
pub record BankDatabase : Type 0 where
  pub tables : Database
  pub bank_batches : List BankUploadBatch

pub record BankRun : Type 0 where
  pub database : BankDatabase
  pub error : Option ProcessingError

abbrev pub bank_finish : BankDatabase → BankRun
bank_finish db = record { database = db; error = none }

abbrev pub bank_fail : ProcessingError → BankDatabase → BankRun
bank_fail e db = record { database = db; error = some e }

abbrev pub bank_then : BankRun → (BankDatabase → BankRun) → BankRun
bank_then run rest = elim run.error [ none ↦ rest run.database | some e ↦ run ]

abbrev pub is_bank_batch : Text → BankUploadBatch → Bool
is_bank_batch id batch = batch.id == id

-- `findUnique({ where: { id } })`
unfoldable pub get_bank_batch : Text → List BankUploadBatch → Option BankUploadBatch
get_bank_batch id [] = none
get_bank_batch id (batch ∷ batches) =
    let rest = get_bank_batch id batches in if is_bank_batch id batch then some batch else rest

abbrev pub change_bank_batch :
    Text → (BankUploadBatch → BankUploadBatch) → BankUploadBatch → BankUploadBatch
change_bank_batch id change batch = if is_bank_batch id batch then change batch else batch

-- `bankUploadBatch.update({ where: { id }, data })`
unfoldable pub update_bank_batch :
    Text → (BankUploadBatch → BankUploadBatch) → BankDatabase → BankRun
update_bank_batch id change db =
    if any (is_bank_batch id) db.bank_batches
    then bank_finish
        (record db { bank_batches = map (change_bank_batch id change) db.bank_batches })
    else bank_fail record_not_found db

abbrev pub new_bank_batch : ℕ → Text → Text → Text → BankUploadBatch
new_bank_batch now id file_path uploaded_by = record {
  id = id;
  file_path = file_path;
  uploaded_by = uploaded_by;
  processing_status = queued;
  validation_status = validation_pending;
  total_records = 0;
  processed_records = 0;
  failed_records = 0;
  total_amount = pos 0;
  validation_errors = none;
  validation_warnings = [];
  uploaded_at = now;
  processing_started_at = none;
  processing_completed_at = none;
  metadata = no_metadata;
}

-- The data of `updateBatchStatus`, by the new status. No call gives a validation status.
abbrev pub set_bank_status : ℕ → ProcessingStatus → BankUploadBatch → BankUploadBatch
set_bank_status now parsing b = record b {
  processing_status = parsing;
  processing_started_at = some now;
}
set_bank_status now completed b = record b {
  processing_status = completed;
  processing_completed_at = some now;
}
set_bank_status now failed b = record b {
  processing_status = failed;
  processing_completed_at = some now;
}
set_bank_status now queued b = record b { processing_status = queued }
set_bank_status now validating b = record b { processing_status = validating }
set_bank_status now processing b = record b { processing_status = processing }
set_bank_status now waiting_for_approval b = record b { processing_status = waiting_for_approval }
set_bank_status now canceled b = record b { processing_status = canceled }

abbrev pub bank_parsing_results : ℕ → BankUploadBatch → BankUploadBatch
bank_parsing_results total b = record b { total_records = total; processing_status = validating }

pub record BankValidationResults : Type 0 where
  pub processed_records : ℕ
  pub failed_records : ℕ
  pub validation_errors : List ValidationError
  pub validation_warnings : List ValidationError
  pub validation_status : ValidationStatus
  pub transactions_with_warnings : ℕ

abbrev pub bank_validation_results : BankValidationResults → BankUploadBatch → BankUploadBatch
bank_validation_results results b = record b {
  processed_records = results.processed_records;
  failed_records = results.failed_records;
  validation_errors = some (bank_details results.validation_errors);
  validation_warnings = results.validation_warnings;
  validation_status = results.validation_status;
  processing_status = processing;
  metadata = validation_metadata results.transactions_with_warnings;
}

abbrev pub bank_final_results : ℕ → ℤ → ℕ → BankMetadata → BankUploadBatch → BankUploadBatch
bank_final_results now total processed metadata b = record b {
  total_amount = total;
  processed_records = processed;
  metadata = metadata;
  processing_status = completed;
  validation_status = validation_passed;
  processing_completed_at = some now;
}

abbrev pub bank_error : ℕ → ProcessingError → BankUploadBatch → BankUploadBatch
bank_error now e b = record b {
  processing_status = failed;
  validation_status = validation_failed;
  validation_errors = some (bank_message e);
  processing_completed_at = some now;
}

-- There is a batch with the id, and the first one has the property.
abbrev pub HasBankBatch : Text → (BankUploadBatch → Type 0) → BankDatabase → Type 0
HasBankBatch id P db = (b : BankUploadBatch) × (get_bank_batch id db.bank_batches ≡ some b) × P b

any_of_get_bank_batch :
    (id : Text) (bs : List BankUploadBatch) (b : BankUploadBatch)
    → get_bank_batch id bs ≡ some b
    → any (is_bank_batch id) bs ≡ true
unfolding get_bank_batch
any_of_get_bank_batch id [] b h = ground (arith, h)
any_of_get_bank_batch id (c ∷ bs) b h = ground (arith, h, any_of_get_bank_batch id bs b)

module _ (id : Text) (change : BankUploadBatch → BankUploadBatch)
    (keeps : (b : BankUploadBatch) → (change b).id ≡ b.id) where
  get_bank_batch-map :
      (bs : List BankUploadBatch) (b : BankUploadBatch)
      → get_bank_batch id bs ≡ some b
      → get_bank_batch id (map (change_bank_batch id change) bs) ≡ some (change b)
  unfolding get_bank_batch
  get_bank_batch-map [] b h = ground (arith, h)
  get_bank_batch-map (c ∷ bs) b h = elim (Bool-cases (is_bank_batch id c)) [
    | inl here ↦
        let kept : is_bank_batch id (change c) ≡ true = ap (λ i. i == id) (keeps c) ∙ here in
        ground (arith, here, kept, h)
    | inr there ↦ ground (arith, there, h, get_bank_batch-map bs b)
  ]

  -- An update does not throw and leaves the other tables, and the batch has the property that the
  -- change gives it.
  pub update_bank_batch-HasBankBatch :
      (P : BankUploadBatch → Type 0) (db : BankDatabase)
      → HasBankBatch id (λ b. P (change b)) db
      → ((update_bank_batch id change db).error ≡ none)
        × HasBankBatch id P (update_bank_batch id change db).database
        × ((update_bank_batch id change db).database.tables ≡ db.tables)
  unfolding update_bank_batch
  update_bank_batch-HasBankBatch P db (b, h, p) =
      rw (any_of_get_bank_batch id db.bank_batches b h)
        (refl, (change b, get_bank_batch-map db.bank_batches b h, p), refl)
