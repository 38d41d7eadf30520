-- ===== src/BankUpload/Processor.antt =====
-- `BankFileProcessor`, src/services/bank-upload/BankFileProcessor.ts, with the financial summary of
-- src/services/bank-upload/database/BankTransactionRepository.ts.
pub mod Completes
use xeno_reconciliation.Prelude.{
  ℕ, ◌+◌, ◌-◌, Bool, true, false, not, ◌||◌, Option, none, some, List, [], ◌∷◌, if◌then◌else◌, ◌==◌,
  nat_eq, list_eq, filter_by, length, ltb,
}
use xeno_reconciliation.Prelude.Int.{ℤ, pos, ◌+ℤ◌, abs}
use xeno_reconciliation.Prelude.Text.{Text, codes}
use xeno_reconciliation.Validation.Fields.{value_of}
use xeno_reconciliation.Upload.Records.{
  parsing, validating, failed, validation_failed, validation_warning, validation_passed,
  ValidationStatus, ProcessingError, no_transactions, upload_rejected, Result, returned, thrown,
}
use xeno_reconciliation.BankUpload.Types.{
  ParsedBankTransaction, ValidationError, Locale, has_severity_critical,
}
use xeno_reconciliation.BankUpload.Validator.{BankValidation, critical_errors, validate_bank_batch}
use xeno_reconciliation.BankUpload.Repository.{save_bank_transactions}
use xeno_reconciliation.BankUpload.Batches.{
  BankSummary, final_metadata, BankDatabase, BankRun, bank_fail, bank_then, get_bank_batch,
  update_bank_batch, set_bank_status, bank_parsing_results, bank_validation_results,
  bank_final_results, bank_error,
}

abbrev pub empty_bank_summary : BankSummary
empty_bank_summary = record {
  total_amount = pos 0;
  deposit_count = 0;
  withdrawal_count = 0;
  total_deposits = pos 0;
  total_withdrawals = pos 0;
}

-- One round of the loop of `calculateFinancialSummary`.
unfoldable pub add_bank_transaction : BankSummary → ParsedBankTransaction → BankSummary
add_bank_transaction s t =
    let amount = value_of t.total_amount in
    if t.transaction_type == codes "DEPOSIT"
    then record s {
      total_amount = s.total_amount +ℤ amount;
      deposit_count = s.deposit_count + 1;
      total_deposits = s.total_deposits +ℤ amount;
    }
    else (if t.transaction_type == codes "WITHDRAWAL" || t.transaction_type == codes "REDEMPTION"
        then record s {
          total_amount = s.total_amount +ℤ amount;
          withdrawal_count = s.withdrawal_count + 1;
          total_withdrawals = s.total_withdrawals +ℤ pos (abs amount);
        }
        else record s { total_amount = s.total_amount +ℤ amount })

unfoldable pub bank_summary_from : BankSummary → List ParsedBankTransaction → BankSummary
unfolding add_bank_transaction
bank_summary_from s [] = s
bank_summary_from s (t ∷ ts) = bank_summary_from (add_bank_transaction s t) ts

-- What a run is given: the settings of JavaScript, the times at which it starts and ends, and what
-- the parser makes of the file at a path.
pub record BankSetting : Type 0 where
  pub locale : Locale
  pub started : ℕ
  pub ended : ℕ
  pub parse_bank_file : Text → Result (List ParsedBankTransaction)

abbrev pub bank_status_of : List ValidationError → List ValidationError → ValidationStatus
bank_status_of errors warnings =
    if ltb 0 (length errors)
    then validation_failed
    else (if ltb 0 (length warnings) then validation_warning else validation_passed)

module _ (setting : BankSetting) (id : Text) where
  abbrev pub bank_processing_time : BankDatabase → ℕ
  bank_processing_time db = elim (get_bank_batch id db.bank_batches) [
    | none ↦ 0
    | some batch ↦ elim batch.processing_started_at [
      | none ↦ 0
      | some start ↦ setting.ended - start
    ]
  ]

  unfoldable pub finalize_bank_processing : List ParsedBankTransaction → BankDatabase → BankRun
  unfolding save_bank_transactions bank_summary_from get_bank_batch update_bank_batch
  finalize_bank_processing ts db =
      let summary = bank_summary_from empty_bank_summary ts in
      elim (save_bank_transactions id ts db.tables) [
        | thrown e ↦ bank_fail e db
        | returned saved ↦
            update_bank_batch id
              (bank_final_results setting.ended summary.total_amount saved.1 (
                final_metadata (bank_processing_time (record db { tables = saved.0 })) (length ts)
                  saved.1 summary))
              (record db { tables = saved.0 })
      ]

  -- The check of the invalid transactions, then the saving.
  unfoldable pub check_bank_transactions :
      List ParsedBankTransaction → BankValidation → BankDatabase → BankRun
  unfolding update_bank_batch finalize_bank_processing
  check_bank_transactions ts result db =
      let invalid = result.invalid_transactions in
      if ltb 0 (length invalid)
      then bank_then (update_bank_batch id (set_bank_status setting.ended failed) db)
          (bank_fail (upload_rejected (length invalid) (length ts)))
      else finalize_bank_processing result.valid_transactions db

  -- From the validation on.
  unfoldable pub validate_and_save_bank : List ParsedBankTransaction → BankDatabase → BankRun
  unfolding validate_bank_batch update_bank_batch check_bank_transactions
  validate_and_save_bank ts db =
      let result = validate_bank_batch setting.locale db.tables.accounts db.tables.goals ts in
      let errors = critical_errors result.all_errors in
      let warnings = filter_by (λ e. not (has_severity_critical e)) result.all_errors in
      bank_then
        (update_bank_batch id
          (bank_validation_results (record {
            processed_records = length result.valid_transactions;
            failed_records = length result.invalid_transactions;
            validation_errors = errors;
            validation_warnings = warnings;
            validation_status = bank_status_of errors warnings;
            transactions_with_warnings = length result.transactions_with_warnings;
          }))
          db)
        (check_bank_transactions ts result)

  -- From the parsing on: the status is set to VALIDATING twice.
  unfoldable pub parse_and_save_bank : Text → BankDatabase → BankRun
  unfolding update_bank_batch validate_and_save_bank
  parse_and_save_bank file_path db = elim (setting.parse_bank_file file_path) [
    | thrown e ↦ bank_fail e db
    | returned [] ↦ bank_fail no_transactions db
    | returned (t ∷ ts) ↦
        bank_then (update_bank_batch id (bank_parsing_results (length (t ∷ ts))) db) (λ after.
          bank_then (update_bank_batch id (set_bank_status setting.started validating) after)
            (validate_and_save_bank (t ∷ ts)))
  ]

  unfoldable pub catch_bank_error : BankRun → BankRun
  unfolding update_bank_batch
  catch_bank_error run = elim run.error [
    | none ↦ run
    | some e ↦
        bank_then (update_bank_batch id (bank_error setting.ended e) run.database) (bank_fail e)
  ]

  unfoldable pub process_bank_file : Text → BankDatabase → BankRun
  unfolding update_bank_batch parse_and_save_bank catch_bank_error
  process_bank_file file_path db = catch_bank_error (
      bank_then (update_bank_batch id (set_bank_status setting.started parsing) db)
        (parse_and_save_bank file_path))
