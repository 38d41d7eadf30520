-- ===== src/Validation/Batch.antt =====
-- `FundTransactionValidator.validateBatch`,
-- src/services/fund-upload/validators/FundTransactionValidator.ts.
use xeno_reconciliation.Prelude.{
  ℕ, Bool, true, false, Option, none, some, List, [], ◌∷◌, ◌++◌, if◌then◌else◌, nat_eq, list_eq,
  any, ltb,
}
use xeno_reconciliation.Prelude.Text.{Text}
use xeno_reconciliation.Prelude.Dict.{Dict, lookup, insert}
use xeno_reconciliation.Validation.Types.{
  ParsedFundTransaction, TransactionValidationError, ValidationConfig, Clock, is_critical, warning,
  duplicate_fund_transaction_id,
}
use xeno_reconciliation.Validation.Fields.{validate}

pub record InvalidTransaction : Type 0 where
  pub transaction : ParsedFundTransaction
  pub errors : List TransactionValidationError

pub record BatchValidation : Type 0 where
  pub valid_transactions : List ParsedFundTransaction
  pub invalid_transactions : List InvalidTransaction
  pub all_errors : List TransactionValidationError

-- `if (transaction.fundTransactionId)`
abbrev pub has_id : ParsedFundTransaction → Bool
has_id t = elim t.fund_transaction_id [ [] ↦ false | c ∷ s ↦ true ]

-- `if (firstOccurrence)`: a row number that is there and not 0
abbrev pub is_row : Option ℕ → Bool
is_row none = false
is_row (some row) = ltb 0 row

-- Whether the id of the transaction was met before.
abbrev pub is_repeated : Dict Text ℕ → ParsedFundTransaction → Bool
is_repeated seen_ids t = is_row (lookup t.fund_transaction_id seen_ids)

abbrev pub duplicate_error : ParsedFundTransaction → TransactionValidationError
duplicate_error t = record {
  row_number = t.row_number;
  error_code = duplicate_fund_transaction_id;
  severity = warning;
}

-- The errors of a transaction, with the one for an id that was met before.
unfoldable pub errors_of :
    ValidationConfig → Clock → Dict Text ℕ → ParsedFundTransaction → List TransactionValidationError
unfolding validate
errors_of config clock seen_ids t =
    let errors = validate config clock t in
    if has_id t
    then (if is_repeated seen_ids t then errors ++ duplicate_error t ∷ [] else errors)
    else errors

-- The ids met so far, after the transaction.
unfoldable pub remember : Dict Text ℕ → ParsedFundTransaction → Dict Text ℕ
remember seen_ids t =
    if has_id t
    then (if is_repeated seen_ids t
        then seen_ids
        else insert t.fund_transaction_id t.row_number seen_ids)
    else seen_ids

-- A transaction is set aside for a critical error only; all errors are kept.
unfoldable pub sort_out :
    ParsedFundTransaction → List TransactionValidationError → BatchValidation → BatchValidation
sort_out t errors batch =
    if any is_critical errors
    then record batch {
      invalid_transactions =
          batch.invalid_transactions ++ record { transaction = t; errors = errors } ∷ [];
      all_errors = batch.all_errors ++ errors;
    }
    else record batch {
      valid_transactions = batch.valid_transactions ++ t ∷ [];
      all_errors = batch.all_errors ++ errors;
    }

unfoldable pub validate_from :
    ValidationConfig
    → Clock
    → Dict Text ℕ
    → BatchValidation
    → List ParsedFundTransaction
    → BatchValidation
unfolding errors_of remember sort_out
validate_from config clock seen_ids batch [] = batch
validate_from config clock seen_ids batch (t ∷ ts) =
    validate_from config clock (remember seen_ids t)
      (sort_out t (errors_of config clock seen_ids t) batch) ts

abbrev pub empty_batch : BatchValidation
empty_batch = record { valid_transactions = []; invalid_transactions = []; all_errors = [] }

unfoldable pub validate_batch :
    ValidationConfig → Clock → List ParsedFundTransaction → BatchValidation
unfolding validate_from
validate_batch config clock transactions = validate_from config clock [] empty_batch transactions
