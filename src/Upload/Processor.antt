-- ===== src/Upload/Processor.antt =====
-- `FundFileProcessor`, src/services/fund-upload/FundFileProcessor.ts.
pub mod Ends
pub mod Untouched
pub mod AllOrNothing
pub mod Resume
use xeno_reconciliation.Upload.Records.{invalid_value}
use xeno_reconciliation.Prelude.{
  ℕ, ◌-◌, Bool, true, false, Option, none, some, List, [], ◌∷◌, ◌++◌, if◌then◌else◌, filter_by,
  length, ltb,
}
use xeno_reconciliation.Prelude.Text.{Text, codes, includes_text}
use xeno_reconciliation.Validation.Types.{
  ParsedFundTransaction, TransactionValidationError, ValidationConfig, Clock, is_critical, critical,
  warning, info,
}
use xeno_reconciliation.Validation.Batch.{BatchValidation, validate_batch}
use xeno_reconciliation.Validation.GoalGroups.{
  validate_goal_transaction_groups, get_group_statistics,
}
use xeno_reconciliation.Upload.Records.{
  NewEntitiesReport, parsing, failed, validation_failed, validation_warning, validation_passed,
  ValidationStatus, approved, rejected, approval_pending, EntityApprovalStatus, ProcessingError,
  record_not_found, no_transactions, invalid_date, batch_not_found, entities_not_approved,
  upload_rejected, goal_validation_failed, missing_report, currently_processing, restricted,
  missing_foreign_key, missing_account, missing_goal, outside, Result, returned, thrown, Database,
  Run, finish, fail_with, and_then,
}
use xeno_reconciliation.Upload.Batches.{
  get_batch, update_batch_status, update_batch_with_parsing_results,
  update_batch_with_validation_results, update_batch_with_new_entities,
  update_batch_with_final_results, update_batch_with_error,
}
use xeno_reconciliation.Upload.Detector.{detect_new_entities, has_new_entities}
use xeno_reconciliation.Upload.Creator.{create_approved_entities}
use xeno_reconciliation.Upload.Repository.{save_transactions, save_invalid_transactions}
use xeno_reconciliation.Upload.Summary.{calculate_financial_summary}

abbrev pub is_warning : TransactionValidationError → Bool
is_warning e = elim e.severity [ critical ↦ false | warning ↦ true | info ↦ false ]

-- What a run is given: the settings, the times at which it starts and ends, the names of new rows,
-- and what the parser makes of the file at a path.
pub record Setting : Type 0 where
  pub validation : ValidationConfig
  pub batch_insert_size : ℕ
  pub clock : Clock
  pub started : ℕ
  pub ended : ℕ
  pub new_id : ℕ → Text
  pub parse_file : Text → Result (List ParsedFundTransaction)

-- `error.message.includes('Goal transaction validation failed')`
unfoldable pub keeps_details : ProcessingError → Bool
keeps_details record_not_found = false
keeps_details no_transactions = false
keeps_details invalid_date = false
keeps_details batch_not_found = false
keeps_details entities_not_approved = false
keeps_details missing_report = false
keeps_details currently_processing = false
keeps_details restricted = false
keeps_details invalid_value = false
keeps_details (upload_rejected n m) = false
keeps_details (goal_validation_failed n) = true
keeps_details (missing_foreign_key row) = false
keeps_details (missing_account row) = false
keeps_details (missing_goal row) = false
keeps_details (outside text) = includes_text (codes "Goal transaction validation failed") text

abbrev pub status_of :
    List TransactionValidationError → List TransactionValidationError → ValidationStatus
status_of critical_errors warnings =
    if ltb 0 (length critical_errors)
    then validation_failed
    else (if ltb 0 (length warnings) then validation_warning else validation_passed)

abbrev pub is_approved : Option EntityApprovalStatus → Bool
is_approved none = false
is_approved (some approval_pending) = false
is_approved (some approved) = true
is_approved (some rejected) = false

module _ (setting : Setting) (id : Text) where
  -- `batch?.processingStartedAt ? Date.now() - ... : 0`
  abbrev pub processing_time : Database → ℕ
  processing_time db = elim (get_batch id db.batches) [
    | none ↦ 0
    | some batch ↦ elim batch.processing_started_at [
      | none ↦ 0
      | some start ↦ setting.ended - start
    ]
  ]

  -- The refresh of the views changes none of the tables, and its failure is not passed on.
  unfoldable pub finalize_processing : List ParsedFundTransaction → Database → Run
  unfolding save_transactions calculate_financial_summary get_batch update_batch_with_final_results
      get_group_statistics
  finalize_processing ts db = elim (save_transactions setting.batch_insert_size id ts db) [
    | thrown e ↦ fail_with e db
    | returned saved ↦
        update_batch_with_final_results setting.ended id (calculate_financial_summary ts)
          (get_group_statistics ts)
          (record { processing_time_ms = processing_time saved.0; transaction_count = length ts })
          saved.0
  ]

  -- From the detection of new entities on.
  unfoldable pub detect_and_save : List ParsedFundTransaction → Database → Run
  unfolding detect_new_entities has_new_entities update_batch_with_new_entities finalize_processing
  detect_and_save valid db =
      let report = detect_new_entities db valid in
      if has_new_entities report
      then update_batch_with_new_entities id report db
      else finalize_processing valid db

  -- The check of the critical errors of the groups.
  unfoldable pub check_groups :
      List ParsedFundTransaction → List TransactionValidationError → Database → Run
  unfolding get_batch update_batch_status detect_and_save
  check_groups valid group_errors db =
      let critical_count = length (filter_by is_critical group_errors) in
      let next = detect_and_save valid db in
      if ltb 0 critical_count
      then and_then
          (elim (get_batch id db.batches) [
            | none ↦ finish db
            | some batch ↦ update_batch_status setting.ended id failed none db
          ])
          (fail_with (goal_validation_failed critical_count))
      else next

  -- The check of the invalid transactions, which are saved first.
  unfoldable pub check_transactions :
      List ParsedFundTransaction
      → BatchValidation
      → List TransactionValidationError
      → Database
      → Run
  unfolding save_invalid_transactions update_batch_status check_groups
  check_transactions transactions result group_errors db =
      let invalid = result.invalid_transactions in
      let next = check_groups result.valid_transactions group_errors db in
      if ltb 0 (length invalid)
      then and_then
          (update_batch_status setting.ended id failed none
            (save_invalid_transactions id invalid db))
          (fail_with (upload_rejected (length invalid) (length transactions)))
      else next

  -- From the validation of the single transactions on.
  unfoldable pub validate_and_save : List ParsedFundTransaction → Database → Run
  unfolding validate_batch validate_goal_transaction_groups update_batch_with_validation_results
      check_transactions
  validate_and_save transactions db =
      let result = validate_batch setting.validation setting.clock transactions in
      elim (validate_goal_transaction_groups result.valid_transactions) [
        | none ↦ fail_with invalid_date db
        | some group_errors ↦
            let all_errors = result.all_errors ++ group_errors in
            let critical_errors = filter_by is_critical all_errors in
            let warnings = filter_by is_warning all_errors in
            and_then
              (update_batch_with_validation_results id
                (record {
                  processed_records = length result.valid_transactions;
                  failed_records = length result.invalid_transactions;
                  validation_errors = critical_errors;
                  validation_warnings = warnings;
                  validation_status = status_of critical_errors warnings;
                })
                db)
              (check_transactions transactions result group_errors)
      ]

  -- From the parsing of the file on.
  unfoldable pub parse_and_save : Text → Database → Run
  unfolding update_batch_with_parsing_results validate_and_save
  parse_and_save file_path db = elim (setting.parse_file file_path) [
    | thrown e ↦ fail_with e db
    | returned [] ↦ fail_with no_transactions db
    | returned (t ∷ ts) ↦
        and_then (update_batch_with_parsing_results id (length (t ∷ ts)) db)
          (validate_and_save (t ∷ ts))
  ]

  -- The `catch` block: the error is written to the batch, and thrown again.
  unfoldable pub catch_error : Run → Run
  unfolding update_batch_with_error keeps_details
  catch_error run = elim run.error [
    | none ↦ run
    | some e ↦
        if keeps_details e
        then run
        else and_then (update_batch_with_error setting.ended id e run.database) (fail_with e)
  ]

  unfoldable pub process_file : Text → Database → Run
  unfolding update_batch_status parse_and_save catch_error
  process_file file_path db =
      catch_error (
        and_then (update_batch_status setting.started id parsing none db)
          (parse_and_save file_path))

  -- From the second parsing on, after the approval.
  unfoldable pub save_again : Text → Database → Run
  unfolding validate_batch update_batch_status finalize_processing
  save_again file_path db = elim (setting.parse_file file_path) [
    | thrown e ↦ fail_with e db
    | returned ts ↦
        let result = validate_batch setting.validation setting.clock ts in
        let invalid = result.invalid_transactions in
        let next = finalize_processing result.valid_transactions db in
        if ltb 0 (length invalid)
        then and_then (update_batch_status setting.ended id failed none db)
            (fail_with (upload_rejected (length invalid) (length ts)))
        else next
  ]

  -- The creation of the entities of the report, then the second parsing.
  unfoldable pub create_and_save : Option NewEntitiesReport → Text → Database → Run
  unfolding create_approved_entities save_again
  create_and_save none file_path db = fail_with missing_report db
  create_and_save (some report) file_path db =
      and_then (create_approved_entities setting.new_id report db) (save_again file_path)

  unfoldable pub resume_body : Text → Database → Run
  unfolding get_batch create_and_save
  resume_body file_path db = elim (get_batch id db.batches) [
    | none ↦ fail_with batch_not_found db
    | some batch ↦
        if is_approved batch.new_entities_status
        then create_and_save batch.new_entities_report file_path db
        else fail_with entities_not_approved db
  ]

  unfoldable pub resume_processing : Text → Database → Run
  unfolding resume_body catch_error
  resume_processing file_path db = catch_error (resume_body file_path db)
