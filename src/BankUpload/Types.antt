-- ===== src/BankUpload/Types.antt =====
-- The types of src/types/bankTransaction.ts that the upload of bank transactions reads and writes.
use xeno_reconciliation.Prelude.{ℕ, Bool, true, false, Option, List}
use xeno_reconciliation.Prelude.Int.{ℤ}
use xeno_reconciliation.Prelude.Text.{Text}
use xeno_reconciliation.Validation.Types.{Severity, critical, warning, info}

-- Numbers are counted in millionths and times in milliseconds; `none` stands for `null` and
-- `undefined`, and the empty text for a missing one.
pub record ParsedBankTransaction : Type 0 where
  pub row_number : ℕ
  pub first_name : Text
  pub last_name : Text
  pub account_number : Text
  pub goal_title : Text
  pub goal_number : Text
  pub transaction_date : Option ℤ
  pub transaction_type : Text
  pub transaction_id : Text
  pub total_amount : Option ℤ
  pub xummf_percentage : Option ℤ
  pub xubf_percentage : Option ℤ
  pub xudef_percentage : Option ℤ
  pub xuref_percentage : Option ℤ
  pub xummf_amount : Option ℤ
  pub xubf_amount : Option ℤ
  pub xudef_amount : Option ℤ
  pub xuref_amount : Option ℤ

pub data BankErrorCode : Type 0 where
  required_field invalid_value future_date date_too_old percentage_sum_mismatch amount_sum_mismatch
        account_not_found goal_not_found :
      BankErrorCode

-- The texts for people, and the value they show, are left out.
pub record ValidationError : Type 0 where
  pub row_number : ℕ
  pub field : Text
  pub error_code : BankErrorCode
  pub severity : Severity

pub record InvalidBankTransaction : Type 0 where
  pub transaction : ParsedBankTransaction
  pub errors : List ValidationError

-- What JavaScript answers at the call: the last millisecond of the day, the time ten years ago, and
-- the case of letters.
pub record Locale : Type 0 where
  pub end_of_today : ℤ
  pub ten_years_ago : ℤ
  pub to_upper_case : Text → Text
  pub to_lower_case : Text → Text

abbrev pub has_severity_critical : ValidationError → Bool
has_severity_critical e = elim e.severity [ critical ↦ true | warning ↦ false | info ↦ false ]
