-- ===== src/Validation/Tests.antt =====
-- Tests and examples for the validators of src/services/fund-upload/validators/.
use xeno_reconciliation.Prelude.Int.{◌+ℤ◌}
use xeno_reconciliation.Prelude.{
  ◌+◌, ◌*◌, ◌-◌, ℕ, ◌≡◌, ◌↔◌, refl, false, not, none, some, List, [], ◌∷◌, any, arith, map,
  filter_by, length, nat_eq, list_eq,
}
use xeno_reconciliation.Prelude.Int.{pos, negsuc, sum_of}
use xeno_reconciliation.Prelude.Text.{codes, Text}
use xeno_reconciliation.Prelude.Dict.{Dict}
use xeno_reconciliation.Validation.Types.{
  warning, missing_expected_funds, TransactionValidationError, ParsedFundTransaction,
  ValidationConfig, Clock, is_critical,
}
use xeno_reconciliation.Validation.Fields.{validate}
use xeno_reconciliation.Validation.Batch.{validate_batch}
use xeno_reconciliation.Validation.Accepted.{IsAcceptable, validate-IsAcceptable}
use xeno_reconciliation.Validation.Partition.{
  is_rejected, transaction_of, validate_batch_partitions,
}
use xeno_reconciliation.Validation.Duplicates.{expected_errors, validate_batch-expected_errors}
use xeno_reconciliation.Validation.GoalGroups.{
  validate_goal_transaction_groups, validate_fund_distribution,
}
use xeno_reconciliation.Validation.Consistency.{
  CodesAgree, validate_goal_transaction_groups-CodesAgree,
}
use xeno_reconciliation.Validation.Distribution.{length-validate_fund_distribution}

abbrev config : ValidationConfig
config = record {
  date_range_years_past = 10;
  date_range_years_future = 0;
  amount_max = 1_000_000_000_000_000;
  unit_trust_tolerance = 10_000;
  fund_distribution_tolerance = 10_000;
}

abbrev clock : Clock
clock = record {
  midnight = pos 1_760_000_000_000;
  years_ago = λ years. pos (1_760_000_000_000 - years * 31_536_000_000);
  years_ahead = λ years. pos (1_760_000_000_000 + years * 31_536_000_000);
}

abbrev row : ParsedFundTransaction
row = record {
  fund_transaction_id = codes "F1";
  goal_transaction_code = codes "C1";
  transaction_id = codes "T1";
  source = some (codes "BANK");
  transaction_date = some (pos 1_750_000_000_000);
  client_name = codes "A";
  fund_code = codes "XUMMF";
  amount = some (pos 1_000_000);
  units = some (pos 1_000_000);
  transaction_type = codes "DEPOSIT";
  bid_price = some (pos 1_000_000);
  offer_price = some (pos 1_000_000);
  mid_price = some (pos 1_000_000);
  goal_title = codes "G";
  account_type = codes "PERSONAL";
  account_category = codes "GENERAL";
  sponsor_code = none;
  date_created = none;
  goal_number = codes "701-123456789a";
  account_number = codes "701-123456789";
  row_number = 2;
}

-- The same id again, and a withdrawal without a bid price.
abbrev rows : List ParsedFundTransaction
rows =
    row
    ∷ record row { row_number = 3 }
    ∷ record row { row_number = 4; transaction_type = codes "WITHDRAWAL"; bid_price = none }
    ∷ []

validate-IsAcceptable_example :
    (any is_critical (validate config clock row) ≡ false) ↔ IsAcceptable row
validate-IsAcceptable_example = validate-IsAcceptable config clock row

validate_batch_partitions_example :
    let batch = validate_batch config clock rows in
    (batch.valid_transactions ≡ filter_by (λ t. not (is_rejected config clock t)) rows)
    × (map transaction_of batch.invalid_transactions ≡ filter_by (is_rejected config clock) rows)
validate_batch_partitions_example = validate_batch_partitions config clock rows

validate_batch-expected_errors_example :
    (validate_batch config clock rows).all_errors ≡ expected_errors config clock [] rows
validate_batch-expected_errors_example =
    validate_batch-expected_errors config clock rows (omega arith, (omega arith, (omega arith, tt)))

abbrev found_errors : List TransactionValidationError
found_errors =
    record { row_number = 2; error_code = missing_expected_funds; severity = warning } ∷ []

abbrev four_rows : List ParsedFundTransaction
four_rows = row ∷ row ∷ row ∷ row ∷ []

validate_goal_transaction_groups-CodesAgree_example :
    (any is_critical found_errors ≡ false) ↔ CodesAgree four_rows
unfolding validate_goal_transaction_groups
validate_goal_transaction_groups-CodesAgree_example =
    validate_goal_transaction_groups-CodesAgree four_rows found_errors refl

abbrev no_distribution : Dict Text ℕ
no_distribution = (codes "XUMMF", 10_000) ∷ []

abbrev withdrawals : List ParsedFundTransaction
withdrawals = record row { amount = some (negsuc 999_999) } ∷ []

length-validate_fund_distribution_example :
    length (validate_fund_distribution config withdrawals no_distribution) ≡ length withdrawals
unfolding sum_of ◌+ℤ◌
length-validate_fund_distribution_example =
    length-validate_fund_distribution config withdrawals no_distribution 999_999 (omega arith) refl
