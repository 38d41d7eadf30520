-- ===== src/BankUpload/Validator.antt =====
-- `BankTransactionValidator`, src/services/bank-upload/validators/BankTransactionValidator.ts.
pub mod Accepted
pub mod Known
use xeno_reconciliation.Prelude.{
  ℕ, ◌+◌, ◌*◌, Bool, true, false, not, ◌&&◌, ◌||◌, Option, none, some, List, [], ◌∷◌, ◌++◌, map,
  if◌then◌else◌, ◌==◌, nat_eq, list_eq, any, filter_by, includes, length, leb, ltb,
}
use xeno_reconciliation.Prelude.Int.{ℤ, pos, ◌+ℤ◌, ◌-ℤ◌, abs, ltb_ℤ, leb_ℤ, int_eq}
use xeno_reconciliation.Prelude.Text.{Text, codes}
use xeno_reconciliation.Prelude.Dict.{Dict, lookup, insert}
use xeno_reconciliation.Validation.Types.{Severity, critical, warning}
use xeno_reconciliation.Validation.Fields.{is_missing, value_of}
use xeno_reconciliation.Validation.GoalGroups.{set_from}
use xeno_reconciliation.Upload.Records.{Account, Goal}
use xeno_reconciliation.Upload.Detector.{number_of, goal_number}
use xeno_reconciliation.BankUpload.Types.{
  ParsedBankTransaction, BankErrorCode, required_field, invalid_value, future_date, date_too_old,
  percentage_sum_mismatch, amount_sum_mismatch, account_not_found, goal_not_found, ValidationError,
  InvalidBankTransaction, Locale, has_severity_critical,
}

abbrev pub valid_transaction_types : List Text
valid_transaction_types =
    codes "DEPOSIT"
    ∷ codes "WITHDRAWAL"
    ∷ codes "REDEMPTION"
    ∷ codes "SWITCH"
    ∷ codes "DIVIDEND"
    ∷ codes "TRANSFER"
    ∷ []

-- `if (condition) errors.push(this.createError(...))`
abbrev pub create_error_if : Bool → ℕ → Text → BankErrorCode → Severity → List ValidationError
create_error_if condition row field code severity =
    if condition
    then record { row_number = row; field = field; error_code = code; severity = severity } ∷ []
    else []

-- `!text`
abbrev pub is_blank : Text → Bool
is_blank [] = true
is_blank (c ∷ s) = false

abbrev pub is_future : Locale → ParsedBankTransaction → Bool
is_future locale t =
    not (is_missing t.transaction_date) && ltb_ℤ locale.end_of_today (value_of t.transaction_date)

abbrev pub is_too_old : Locale → ParsedBankTransaction → Bool
is_too_old locale t =
    not (is_missing t.transaction_date) && ltb_ℤ (value_of t.transaction_date) locale.ten_years_ago

abbrev pub total_percentage : ParsedBankTransaction → ℤ
total_percentage t =
    value_of t.xummf_percentage
    +ℤ value_of t.xubf_percentage
    +ℤ value_of t.xudef_percentage
    +ℤ value_of t.xuref_percentage

-- Above 0 and at most 400, and more than 5 away from 100.
unfoldable pub percentages_are_off : ParsedBankTransaction → Bool
percentages_are_off t =
    let total = total_percentage t in
    ltb_ℤ (pos 0) total
    && leb_ℤ total (pos 400_000_000)
    && ltb 5_000_000 (abs (total -ℤ pos 100_000_000))

abbrev pub total_fund_amount : ParsedBankTransaction → ℕ
total_fund_amount t =
    abs (value_of t.xummf_amount)
    + abs (value_of t.xubf_amount)
    + abs (value_of t.xudef_amount)
    + abs (value_of t.xuref_amount)

abbrev pub expected_total : ParsedBankTransaction → ℕ
expected_total t = abs (value_of t.total_amount)

-- More than 2% of the total away from it, where there are amounts and a total.
unfoldable pub amounts_are_off : ParsedBankTransaction → Bool
amounts_are_off t =
    ltb 0 (total_fund_amount t)
    && not (value_of t.total_amount == pos 0)
    && ltb (expected_total t) (50 * abs (pos (total_fund_amount t) -ℤ pos (expected_total t)))

abbrev pub is_unknown_type : Locale → ParsedBankTransaction → Bool
is_unknown_type locale t =
    not (is_blank t.transaction_type)
    && not (includes valid_transaction_types (locale.to_upper_case t.transaction_type))

abbrev pub is_zero_total : ParsedBankTransaction → Bool
is_zero_total t = not (is_missing t.total_amount) && value_of t.total_amount == pos 0

unfoldable pub validate_transaction : Locale → ParsedBankTransaction → List ValidationError
unfolding percentages_are_off amounts_are_off
validate_transaction locale t =
    let row = t.row_number in
    create_error_if (is_missing t.transaction_date) row (codes "transactionDate") required_field
      critical
    ++ create_error_if (is_blank t.first_name && is_blank t.last_name) row
        (codes "firstName/lastName") required_field critical
    ++ create_error_if (is_blank t.account_number) row (codes "accountNumber") required_field
        critical
    ++ create_error_if (is_blank t.goal_number) row (codes "goalNumber") required_field critical
    ++ create_error_if (is_blank t.transaction_id) row (codes "transactionId") required_field
        critical
    ++ create_error_if (is_blank t.transaction_type) row (codes "transactionType") required_field
        critical
    ++ create_error_if (is_unknown_type locale t) row (codes "transactionType") invalid_value
        critical
    ++ create_error_if (is_missing t.total_amount) row (codes "totalAmount") required_field critical
    ++ create_error_if (is_zero_total t) row (codes "totalAmount") invalid_value critical
    ++ create_error_if (is_future locale t) row (codes "transactionDate") future_date critical
    ++ create_error_if (is_too_old locale t) row (codes "transactionDate") date_too_old warning
    ++ create_error_if (percentages_are_off t) row (codes "fundPercentages") percentage_sum_mismatch
        warning
    ++ create_error_if (amounts_are_off t) row (codes "fundAmounts") amount_sum_mismatch warning

abbrev pub bank_account_number : ParsedBankTransaction → Text
bank_account_number t = t.account_number

abbrev pub bank_goal_number : ParsedBankTransaction → Text
bank_goal_number t = t.goal_number

-- `[...new Set(transactions.map(...).filter(Boolean))]`
unfoldable pub unique_numbers :
    (ParsedBankTransaction → Text) → List ParsedBankTransaction → List Text
unfolding set_from
unique_numbers number ts = set_from [] (filter_by (λ n. not (is_blank n)) (map number ts))

-- `rows.forEach((n) => lookup.set(n.toLowerCase(), n))`
unfoldable pub lookup_from : (Text → Text) → Dict Text Text → List Text → Dict Text Text
lookup_from lower d [] = d
lookup_from lower d (n ∷ ns) = lookup_from lower (insert (lower n) n d) ns

-- The numbers of rows that the query finds, which compares them as they are written.
unfoldable pub existing_numbers {ℓ} : {A : Type ℓ} → (A → Text) → List A → List Text → List Text
existing_numbers number rows numbers =
    map number (filter_by (λ row. includes numbers (number row)) rows)

pub record Lookups : Type 0 where
  pub account_lookup : Dict Text Text
  pub goal_lookup : Dict Text Text

unfoldable pub lookups : Locale → List Account → List Goal → List ParsedBankTransaction → Lookups
unfolding lookup_from existing_numbers unique_numbers
lookups locale accounts goals ts = record {
  account_lookup =
      lookup_from locale.to_lower_case []
        (existing_numbers number_of accounts (unique_numbers bank_account_number ts));
  goal_lookup =
      lookup_from locale.to_lower_case []
        (existing_numbers goal_number goals (unique_numbers bank_goal_number ts));
}

-- The number as the database has it, where there is one.
abbrev pub normalized : Locale → Dict Text Text → Text → Option Text
normalized locale d number = lookup (locale.to_lower_case number) d

abbrev pub or_same : Text → Option Text → Text
or_same number none = number
or_same number (some n) = n

-- The transaction with the two numbers as the database has them.
unfoldable pub normalize : Locale → Lookups → ParsedBankTransaction → ParsedBankTransaction
normalize locale found t = record t {
  account_number =
      if is_blank t.account_number
      then t.account_number
      else or_same t.account_number (normalized locale found.account_lookup t.account_number);
  goal_number =
      if is_blank t.goal_number
      then t.goal_number
      else or_same t.goal_number (normalized locale found.goal_lookup t.goal_number);
}

abbrev pub lacks_account : Locale → Lookups → ParsedBankTransaction → Bool
lacks_account locale found t =
    not (is_blank t.account_number)
    && is_missing (normalized locale found.account_lookup t.account_number)

abbrev pub lacks_goal : Locale → Lookups → ParsedBankTransaction → Bool
lacks_goal locale found t =
    not (is_blank t.goal_number) && is_missing (normalized locale found.goal_lookup t.goal_number)

-- The errors of a transaction, with those for an account or a goal that is not found.
unfoldable pub bank_errors_of : Locale → Lookups → ParsedBankTransaction → List ValidationError
unfolding validate_transaction
bank_errors_of locale found t =
    validate_transaction locale t
    ++ create_error_if (lacks_account locale found t) t.row_number (codes "accountNumber")
        account_not_found critical
    ++ create_error_if (lacks_goal locale found t) t.row_number (codes "goalNumber") goal_not_found
        critical

pub record TransactionWithWarnings : Type 0 where
  pub transaction : ParsedBankTransaction
  pub warnings : List ValidationError

pub record BankValidation : Type 0 where
  pub valid_transactions : List ParsedBankTransaction
  pub invalid_transactions : List InvalidBankTransaction
  pub all_errors : List ValidationError
  pub transactions_with_warnings : List TransactionWithWarnings

abbrev pub with_warnings :
    ParsedBankTransaction → List ValidationError → List TransactionWithWarnings
with_warnings t [] = []
with_warnings t (e ∷ errors) = record { transaction = t; warnings = e ∷ errors } ∷ []

abbrev pub critical_errors : List ValidationError → List ValidationError
critical_errors errors = filter_by has_severity_critical errors

-- One round of the loop. A severity that is not critical is `WARNING` or `INFO`.
unfoldable pub sort_bank :
    Locale → Lookups → BankValidation → ParsedBankTransaction → BankValidation
unfolding bank_errors_of normalize
sort_bank locale found result t =
    let errors = bank_errors_of locale found t in
    let own = normalize locale found t in
    if ltb 0 (length (critical_errors errors))
    then record result {
      all_errors = result.all_errors ++ errors;
      invalid_transactions =
          result.invalid_transactions
          ++ record { transaction = own; errors = critical_errors errors } ∷ [];
    }
    else record result {
      all_errors = result.all_errors ++ errors;
      valid_transactions = result.valid_transactions ++ own ∷ [];
      transactions_with_warnings =
          result.transactions_with_warnings
          ++ with_warnings own (filter_by (λ e. not (has_severity_critical e)) errors);
    }

unfoldable pub validate_bank_from :
    Locale → Lookups → BankValidation → List ParsedBankTransaction → BankValidation
unfolding sort_bank
validate_bank_from locale found result [] = result
validate_bank_from locale found result (t ∷ ts) =
    validate_bank_from locale found (sort_bank locale found result t) ts

abbrev pub empty_validation : BankValidation
empty_validation = record {
  valid_transactions = [];
  invalid_transactions = [];
  all_errors = [];
  transactions_with_warnings = [];
}

-- `validateBatch`, with the rows of the two tables.
unfoldable pub validate_bank_batch :
    Locale → List Account → List Goal → List ParsedBankTransaction → BankValidation
unfolding lookups validate_bank_from
validate_bank_batch locale accounts goals ts =
    validate_bank_from locale (lookups locale accounts goals ts) empty_validation ts
