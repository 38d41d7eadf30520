-- ===== src/Upload/Batches.antt =====
-- `UploadBatchManager`, src/services/fund-upload/database/UploadBatchManager.ts. An operation takes
-- the time of the call where it writes it, and throws where there is no batch with the id.
pub mod Laws
use xeno_reconciliation.Prelude.{
  ℕ, ◌+◌, Bool, true, false, Option, none, some, List, [], ◌∷◌, ◌++◌, map, if◌then◌else◌, ◌==◌,
  nat_eq, list_eq, any, length,
}
use xeno_reconciliation.Prelude.Text.{Text}
use xeno_reconciliation.Validation.Types.{TransactionValidationError}
use xeno_reconciliation.Validation.GoalGroups.{GroupStatistics}
use xeno_reconciliation.Upload.Records.{
  ProcessingStatus, queued, parsing, validating, processing, waiting_for_approval, completed,
  failed, canceled, ValidationStatus, validation_pending, validation_passed, validation_failed,
  approval_pending, approved, rejected, NewEntitiesReport, ProcessingError, record_not_found,
  message, details, FinancialSummary, Metadata, UploadBatch, Database, Run, finish, fail_with,
}

abbrev pub is_batch : Text → UploadBatch → Bool
is_batch id batch = batch.id == id

-- `findUnique({ where: { id } })`
unfoldable pub get_batch : Text → List UploadBatch → Option UploadBatch
get_batch id [] = none
get_batch id (batch ∷ batches) =
    let rest = get_batch id batches in if is_batch id batch then some batch else rest

abbrev pub change_batch : Text → (UploadBatch → UploadBatch) → UploadBatch → UploadBatch
change_batch id change batch = if is_batch id batch then change batch else batch

-- `uploadBatch.update({ where: { id }, data })`
unfoldable pub update_batch : Text → (UploadBatch → UploadBatch) → Database → Run
update_batch id change db =
    if any (is_batch id) db.batches
    then finish (record db { batches = map (change_batch id change) db.batches })
    else fail_with record_not_found db

abbrev pub new_batch : ℕ → Text → Text → Text → UploadBatch
new_batch now id file_path uploaded_by = record {
  id = id;
  file_path = file_path;
  uploaded_by = uploaded_by;
  processing_status = queued;
  validation_status = validation_pending;
  total_records = 0;
  processed_records = 0;
  failed_records = 0;
  new_clients_detected = 0;
  new_accounts_detected = 0;
  new_goals_detected = 0;
  new_entities_report = none;
  new_entities_status = none;
  summary = none;
  total_goal_transactions = 0;
  complete_goal_transactions = 0;
  incomplete_goal_transactions = 0;
  validation_errors = none;
  validation_warnings = [];
  uploaded_at = now;
  processing_started_at = none;
  processing_completed_at = none;
  approved_by = none;
  approved_at = none;
  metadata = none;
}

-- `createUploadBatch`; `new_id` names the rows that the database creates.
unfoldable pub create_upload_batch : (ℕ → Text) → ℕ → Text → Text → Database → Text × Database
create_upload_batch new_id now file_path uploaded_by db =
    let id = new_id db.created in
    (
      id,
      record db {
        batches = db.batches ++ new_batch now id file_path uploaded_by ∷ [];
        created = db.created + 1;
      },
    )

-- The data of `updateBatchStatus`, by the new status.
abbrev pub set_status : ℕ → ProcessingStatus → UploadBatch → UploadBatch
set_status now parsing b = record b {
  processing_status = parsing;
  processing_started_at = some now;
}
set_status now completed b = record b {
  processing_status = completed;
  processing_completed_at = some now;
}
set_status now failed b = record b {
  processing_status = failed;
  processing_completed_at = some now;
}
set_status now queued b = record b { processing_status = queued }
set_status now validating b = record b { processing_status = validating }
set_status now processing b = record b { processing_status = processing }
set_status now waiting_for_approval b = record b { processing_status = waiting_for_approval }
set_status now canceled b = record b { processing_status = canceled }

-- `if (validationStatus) updateData.validationStatus = validationStatus`
abbrev pub set_validation : Option ValidationStatus → UploadBatch → UploadBatch
set_validation none b = b
set_validation (some status) b = record b { validation_status = status }

unfoldable pub update_batch_status :
    ℕ → Text → ProcessingStatus → Option ValidationStatus → Database → Run
unfolding update_batch
update_batch_status now id status validation db =
    update_batch id (λ b. set_validation validation (set_status now status b)) db

unfoldable pub update_batch_with_parsing_results : Text → ℕ → Database → Run
unfolding update_batch
update_batch_with_parsing_results id total db =
    update_batch id (λ b. record b { total_records = total; processing_status = validating }) db

pub record ValidationResults : Type 0 where
  pub processed_records : ℕ
  pub failed_records : ℕ
  pub validation_errors : List TransactionValidationError
  pub validation_warnings : List TransactionValidationError
  pub validation_status : ValidationStatus

unfoldable pub update_batch_with_validation_results : Text → ValidationResults → Database → Run
unfolding update_batch
update_batch_with_validation_results id results db =
    update_batch id
      (λ b. record b {
        processed_records = results.processed_records;
        failed_records = results.failed_records;
        validation_errors = some (details results.validation_errors);
        validation_warnings = results.validation_warnings;
        validation_status = results.validation_status;
        processing_status = processing;
      })
      db

unfoldable pub update_batch_with_new_entities : Text → NewEntitiesReport → Database → Run
unfolding update_batch
update_batch_with_new_entities id report db =
    update_batch id
      (λ b. record b {
        new_clients_detected = length report.clients;
        new_accounts_detected = length report.accounts;
        new_goals_detected = length report.goals;
        new_entities_report = some report;
        new_entities_status = some approval_pending;
        processing_status = waiting_for_approval;
      })
      db

-- The approval status is `APPROVED` where the flag is set, else `REJECTED`.
abbrev pub set_approval : ℕ → Bool → Text → UploadBatch → UploadBatch
set_approval now true by b = record b {
  new_entities_status = some approved;
  approved_by = some by;
  approved_at = some now;
  processing_status = processing;
}
set_approval now false by b = record b {
  new_entities_status = some rejected;
  approved_by = some by;
  approved_at = some now;
  processing_status = failed;
  processing_completed_at = some now;
}

unfoldable pub update_batch_after_approval : ℕ → Text → Bool → Text → Database → Run
unfolding update_batch
update_batch_after_approval now id is_approved by db =
    update_batch id (set_approval now is_approved by) db

unfoldable pub update_batch_with_final_results :
    ℕ → Text → FinancialSummary → GroupStatistics → Metadata → Database → Run
unfolding update_batch
update_batch_with_final_results now id summary statistics metadata db =
    update_batch id
      (λ b. record b {
        summary = some summary;
        total_goal_transactions = statistics.total_groups;
        complete_goal_transactions = statistics.complete_groups;
        incomplete_goal_transactions = statistics.incomplete_groups;
        metadata = some metadata;
        processing_status = completed;
        validation_status = validation_passed;
        processing_completed_at = some now;
      })
      db

unfoldable pub update_batch_with_error : ℕ → Text → ProcessingError → Database → Run
unfolding update_batch
update_batch_with_error now id error db =
    update_batch id
      (λ b. record b {
        processing_status = failed;
        validation_status = validation_failed;
        validation_errors = some (message error);
        processing_completed_at = some now;
      })
      db

unfoldable pub cancel_batch : ℕ → Text → Database → Run
unfolding update_batch
cancel_batch now id db =
    update_batch id
      (λ b. record b { processing_status = canceled; processing_completed_at = some now }) db
