-- ===== src/Validation/Types.antt =====
-- The types of src/types/fundTransaction.ts that validation reads and writes.
use xeno_reconciliation.Prelude.{ℕ, Bool, true, false, Option, List, [], ◌∷◌, if◌then◌else◌}
use xeno_reconciliation.Prelude.Int.{ℤ}
use xeno_reconciliation.Prelude.Text.{Text}

-- A text that is missing is the empty one. Amounts, units and prices are counted in millionths and
-- times in milliseconds; `none` stands for `null` and `undefined`. The transaction type and the
-- source are the texts that the parser read.
pub record ParsedFundTransaction : Type 0 where
  pub fund_transaction_id : Text
  pub goal_transaction_code : Text
  pub transaction_id : Text
  pub source : Option Text
  pub transaction_date : Option ℤ
  pub client_name : Text
  pub fund_code : Text
  pub amount : Option ℤ
  pub units : Option ℤ
  pub transaction_type : Text
  pub bid_price : Option ℤ
  pub offer_price : Option ℤ
  pub mid_price : Option ℤ
  pub goal_title : Text
  pub goal_number : Text
  pub account_number : Text
  pub account_type : Text
  pub account_category : Text
  pub sponsor_code : Option Text
  pub date_created : Option ℤ
  pub row_number : ℕ

pub data Severity : Type 0 where
  critical warning info : Severity

pub data ErrorCode : Type 0 where
  required_fund_transaction_id required_transaction_date required_client_name required_fund_code
        required_amount required_units required_account_number required_goal_number
        required_transaction_id required_source date_not_future date_within_range amount_positive
        amount_exceeds_maximum units_positive units_calculation_valid withdrawal_calculation_valid
        required_offer_price required_bid_price missing_mid_price prices_positive
        price_relationship_valid fund_code_valid account_number_format goal_number_format
        invalid_transaction_type duplicate_fund_transaction_id goal_transaction_same_client
        goal_transaction_same_date goal_transaction_same_account goal_transaction_same_goal
        goal_transaction_same_transaction_id goal_transaction_same_source
        goal_transaction_complete_fund_set missing_expected_funds goal_transaction_zero_amounts
        fund_not_in_distribution fund_distribution_matches_goal :
      ErrorCode

-- The texts for people, and the value they show, are left out.
pub record TransactionValidationError : Type 0 where
  pub row_number : ℕ
  pub error_code : ErrorCode
  pub severity : Severity

-- `config.validation`, whose numbers come from the environment: the years, the largest amount and
-- the tolerance of units in millionths, and the tolerance of a distribution in millionths.
pub record ValidationConfig : Type 0 where
  pub date_range_years_past : ℕ
  pub date_range_years_future : ℕ
  pub amount_max : ℕ
  pub unit_trust_tolerance : ℕ
  pub fund_distribution_tolerance : ℕ

-- What JavaScript's `Date` answers at the call: midnight of the day, and the time of now with its
-- year moved back or on.
pub record Clock : Type 0 where
  pub midnight : ℤ
  pub years_ago : ℕ → ℤ
  pub years_ahead : ℕ → ℤ

-- `if (condition) errors.push({ rowNumber, errorCode, severity, ... })`
abbrev pub push_if : Bool → ℕ → ErrorCode → Severity → List TransactionValidationError
push_if condition row code severity =
    if condition
    then record { row_number = row; error_code = code; severity = severity } ∷ []
    else []

abbrev pub is_critical : TransactionValidationError → Bool
is_critical e = elim e.severity [ critical ↦ true | warning ↦ false | info ↦ false ]
