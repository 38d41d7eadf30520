-- ===== src/BankMatch/Tests.antt =====
-- Tests and examples for src/services/reconciliation/BankReconciliationMatcher.ts.
use xeno_reconciliation.BankMatch.Types.{critical}
use xeno_reconciliation.BankMatch.Types.{medium}
use xeno_reconciliation.Prelude.{◌*◌, ◌+◌, ◌-◌}
use xeno_reconciliation.Prelude.{◌≡◌, true, false, none, List, [], ◌∷◌, ◌-◌, nat_eq, list_eq}
use xeno_reconciliation.Prelude.Int.{pos}
use xeno_reconciliation.Prelude.Text.{codes}
use xeno_reconciliation.Store.{deposit, FundTransaction}
use xeno_reconciliation.BankMatch.Types.{
  default_tolerance, ParsedBankTransaction, bare_variance, fund_amount_variance, low, high,
  DetectedVariance,
}
use xeno_reconciliation.BankMatch.Matcher.{match_transaction, calculate_match_score}
use xeno_reconciliation.BankMatch.Scores.{
  count_of, calculate_match_score_lem, IsConsistent, match_transaction-IsConsistent,
}
use xeno_reconciliation.BankMatch.Approval.{ListedFor, detect_variances-exceeds}

abbrev bank : ParsedBankTransaction
bank = record {
  goal_number = codes "G1";
  transaction_id = codes "T1";
  transaction_date = 8_640_000_000;
  total_amount = pos 10_000_000;
  xummf_amount = pos 6_000_000;
  xubf_amount = pos 4_000_000;
  xudef_amount = pos 0;
  xuref_amount = pos 0;
}

abbrev fund_row : FundTransaction
fund_row = record {
  id = codes "f1";
  goal_transaction_code = codes "C1";
  transaction_id = none;
  transaction_type = deposit;
  transaction_date = 100;
  amount = pos 6_000_000;
  fund_code = codes "XUMMF";
  review_tag = none;
  review_notes = none;
  reviewed_by = none;
  reviewed_at = none;
}

abbrev more_rows : List FundTransaction
more_rows = record fund_row { amount = pos 4_000_000; fund_code = codes "XUBF" } ∷ []

abbrev two_variances : List DetectedVariance
two_variances =
    bare_variance fund_amount_variance low true ∷ bare_variance fund_amount_variance high false ∷ []

calculate_match_score_lem_example :
    calculate_match_score two_variances
    ≡ 100
      - (5 * count_of low two_variances
          + 15 * count_of medium two_variances
          + 30 * count_of high two_variances
          + 50 * count_of critical two_variances)
calculate_match_score_lem_example = calculate_match_score_lem two_variances

match_transaction-IsConsistent_example :
    IsConsistent (match_transaction default_tolerance bank (fund_row ∷ more_rows))
match_transaction-IsConsistent_example =
    match_transaction-IsConsistent default_tolerance bank (fund_row ∷ more_rows)

detect_variances-exceeds_example :
    ListedFor default_tolerance bank fund_row more_rows (codes "XUMMF") bank.xummf_amount
    × ListedFor default_tolerance bank fund_row more_rows (codes "XUBF") bank.xubf_amount
    × ListedFor default_tolerance bank fund_row more_rows (codes "XUDEF") bank.xudef_amount
    × ListedFor default_tolerance bank fund_row more_rows (codes "XUREF") bank.xuref_amount
detect_variances-exceeds_example =
    detect_variances-exceeds default_tolerance bank fund_row more_rows
