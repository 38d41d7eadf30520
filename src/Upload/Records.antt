-- ===== src/Upload/Records.antt =====
-- The tables of prisma/schema.prisma that an upload of fund transactions reads and writes, and the
-- result of an operation that may throw.
use xeno_reconciliation.Prelude.{ℕ, Option, none, some, List}
use xeno_reconciliation.Prelude.Int.{ℤ}
use xeno_reconciliation.Prelude.Text.{Text}
use xeno_reconciliation.Prelude.Dict.{Dict}
use xeno_reconciliation.Validation.Types.{ParsedFundTransaction, TransactionValidationError}

pub data ProcessingStatus : Type 0 where
  queued parsing validating processing waiting_for_approval completed failed canceled :
      ProcessingStatus

pub data ValidationStatus : Type 0 where
  validation_pending validation_passed validation_failed validation_warning : ValidationStatus

pub data EntityApprovalStatus : Type 0 where
  approval_pending approved rejected : EntityApprovalStatus

-- Percentages per fund code, in hundredths of a percent.
abbrev pub Distribution : Type 0
Distribution = Dict Text ℤ

pub record NewClientInfo : Type 0 where
  pub client_name : Text
  pub transaction_count : ℕ
  pub total_amount : ℤ

pub record NewAccountInfo : Type 0 where
  pub account_number : Text
  pub account_type : Text
  pub account_category : Text
  pub sponsor_code : Option Text
  pub client_name : Text
  pub transaction_count : ℕ
  pub total_amount : ℤ

pub record NewGoalInfo : Type 0 where
  pub goal_number : Text
  pub goal_title : Text
  pub account_number : Text
  pub client_name : Text
  pub transaction_count : ℕ
  pub total_amount : ℤ
  pub fund_distribution : Distribution

pub record NewEntitiesReport : Type 0 where
  pub clients : List NewClientInfo
  pub accounts : List NewAccountInfo
  pub goals : List NewGoalInfo

-- Rows. Fields that no operation of the model reads or writes are left out.
pub record Client : Type 0 where
  pub id : Text
  pub client_name : Text

pub record Account : Type 0 where
  pub id : Text
  pub client_id : Text
  pub account_number : Text
  pub account_type : Text
  pub account_category : Text
  pub sponsor_code : Option Text

pub record Goal : Type 0 where
  pub id : Text
  pub account_id : Text
  pub goal_number : Text
  pub goal_title : Text
  pub fund_distribution : Distribution

pub record Fund : Type 0 where
  pub id : Text
  pub fund_code : Text

pub record StoredTransaction : Type 0 where
  pub fund_transaction_id : Text
  pub goal_transaction_code : Text
  pub transaction_id : Option Text
  pub source : Option Text
  pub client_id : Text
  pub account_id : Text
  pub goal_id : Text
  pub fund_id : Text
  pub upload_batch_id : Text
  pub transaction_date : Option ℤ
  pub date_created : Option ℤ
  pub transaction_type : Text
  pub amount : Option ℤ
  pub units : Option ℤ
  pub bid_price : Option ℤ
  pub offer_price : Option ℤ
  pub mid_price : Option ℤ
  pub price_date : Option ℤ
  pub row_number : ℕ

pub record InvalidFundTransaction : Type 0 where
  pub upload_batch_id : Text
  pub row_number : ℕ
  pub raw_data : ParsedFundTransaction
  pub validation_errors : List TransactionValidationError

-- A stored percentage is a fraction, counted in hundred-millionths.
pub record BankGoalTransaction : Type 0 where
  pub client_id : Text
  pub account_id : Text
  pub goal_id : Text
  pub upload_batch_id : Text
  pub transaction_date : Option ℤ
  pub transaction_type : Text
  pub transaction_id : Text
  pub first_name : Text
  pub last_name : Text
  pub goal_title : Text
  pub goal_number : Text
  pub total_amount : Option ℤ
  pub xummf_percentage : Option ℤ
  pub xubf_percentage : Option ℤ
  pub xudef_percentage : Option ℤ
  pub xuref_percentage : Option ℤ
  pub xummf_amount : Option ℤ
  pub xubf_amount : Option ℤ
  pub xudef_amount : Option ℤ
  pub xuref_amount : Option ℤ
  pub row_number : ℕ

-- What the upload throws. `outside` is an error of the code that reads the file, with its message.
pub data ProcessingError : Type 0 where
  record_not_found no_transactions invalid_date batch_not_found entities_not_approved missing_report
        currently_processing restricted invalid_value :
      ProcessingError
  upload_rejected : ℕ → ℕ → ProcessingError
  goal_validation_failed : ℕ → ProcessingError
  missing_foreign_key : ℕ → ProcessingError
  missing_account : ℕ → ProcessingError
  missing_goal : ℕ → ProcessingError
  outside : Text → ProcessingError

pub data Result {ℓ} (A : Type ℓ) : Type ℓ where
  returned : A → Result A
  thrown : ProcessingError → Result A

-- The column `validationErrors`: the errors that were found, or the message of what was thrown.
pub data ErrorLog : Type 0 where
  details : List TransactionValidationError → ErrorLog
  message : ProcessingError → ErrorLog

pub record FundBreakdown : Type 0 where
  pub transactions : ℕ
  pub total_amount : ℤ
  pub total_units : ℤ
  pub deposits : ℕ
  pub withdrawals : ℕ

pub record FinancialSummary : Type 0 where
  pub total_deposit_amount : ℤ
  pub total_withdrawal_amount : ℤ
  pub total_units_issued : ℤ
  pub total_units_redeemed : ℤ
  pub fund_breakdown : Dict Text FundBreakdown

pub record Metadata : Type 0 where
  pub processing_time_ms : ℕ
  pub transaction_count : ℕ

-- The name, size and number of the file's batch are left out; a summary is written as a whole.
pub record UploadBatch : Type 0 where
  pub id : Text
  pub file_path : Text
  pub uploaded_by : Text
  pub processing_status : ProcessingStatus
  pub validation_status : ValidationStatus
  pub total_records : ℕ
  pub processed_records : ℕ
  pub failed_records : ℕ
  pub new_clients_detected : ℕ
  pub new_accounts_detected : ℕ
  pub new_goals_detected : ℕ
  pub new_entities_report : Option NewEntitiesReport
  pub new_entities_status : Option EntityApprovalStatus
  pub summary : Option FinancialSummary
  pub total_goal_transactions : ℕ
  pub complete_goal_transactions : ℕ
  pub incomplete_goal_transactions : ℕ
  pub validation_errors : Option ErrorLog
  pub validation_warnings : List TransactionValidationError
  pub uploaded_at : ℕ
  pub processing_started_at : Option ℕ
  pub processing_completed_at : Option ℕ
  pub approved_by : Option Text
  pub approved_at : Option ℕ
  pub metadata : Option Metadata

-- `created` counts the rows that were ever created, for the ids of new ones.
pub record Database : Type 0 where
  pub clients : List Client
  pub accounts : List Account
  pub goals : List Goal
  pub funds : List Fund
  pub fund_transactions : List StoredTransaction
  pub invalid_transactions : List InvalidFundTransaction
  pub bank_goal_transactions : List BankGoalTransaction
  pub batches : List UploadBatch
  pub created : ℕ

-- The tables after an operation, and what it threw, if it did.
pub record Run : Type 0 where
  pub database : Database
  pub error : Option ProcessingError

abbrev pub finish : Database → Run
finish db = record { database = db; error = none }

abbrev pub fail_with : ProcessingError → Database → Run
fail_with e db = record { database = db; error = some e }

-- `await` of the first, then the rest of the body
abbrev pub and_then : Run → (Database → Run) → Run
and_then run rest = elim run.error [ none ↦ rest run.database | some e ↦ run ]
