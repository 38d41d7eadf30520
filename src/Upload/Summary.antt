-- ===== src/Upload/Summary.antt =====
-- `FundTransactionRepository.calculateFinancialSummary`,
-- src/services/fund-upload/database/FundTransactionRepository.ts.
pub mod Totals
use xeno_reconciliation.Prelude.{
  ◌+◌, Bool, ◌||◌, List, [], ◌∷◌, if◌then◌else◌, ◌==◌, nat_eq, list_eq,
}
use xeno_reconciliation.Prelude.Int.{ℤ, pos, ◌+ℤ◌}
use xeno_reconciliation.Prelude.Text.{codes}
use xeno_reconciliation.Prelude.Dict.{modify, ensure}
use xeno_reconciliation.Validation.Types.{ParsedFundTransaction}
use xeno_reconciliation.Validation.Fields.{value_of, is_deposit}
use xeno_reconciliation.Validation.GoalGroups.{amount_of}
use xeno_reconciliation.Upload.Records.{FundBreakdown, FinancialSummary}

abbrev pub empty_breakdown : FundBreakdown
empty_breakdown = record {
  transactions = 0;
  total_amount = pos 0;
  total_units = pos 0;
  deposits = 0;
  withdrawals = 0;
}

abbrev pub is_outflow : ParsedFundTransaction → Bool
is_outflow t = t.transaction_type == codes "WITHDRAWAL" || t.transaction_type == codes "REDEMPTION"

abbrev pub units_of : ParsedFundTransaction → ℤ
units_of t = value_of t.units

unfoldable pub add_to_breakdown : ParsedFundTransaction → FundBreakdown → FundBreakdown
add_to_breakdown t b = record b {
  transactions = b.transactions + 1;
  total_amount = b.total_amount +ℤ amount_of t;
  total_units = b.total_units +ℤ units_of t;
  deposits = if is_deposit t then b.deposits + 1 else b.deposits;
  withdrawals =
      if is_deposit t
      then b.withdrawals
      else (if is_outflow t then b.withdrawals + 1 else b.withdrawals);
}

unfoldable pub add_transaction : FinancialSummary → ParsedFundTransaction → FinancialSummary
unfolding add_to_breakdown
add_transaction s t =
    let fund_breakdown =
      modify t.fund_code (add_to_breakdown t)
        (ensure t.fund_code empty_breakdown s.fund_breakdown) in
    if is_deposit t
    then record s {
      total_deposit_amount = s.total_deposit_amount +ℤ amount_of t;
      total_units_issued = s.total_units_issued +ℤ units_of t;
      fund_breakdown = fund_breakdown;
    }
    else (if is_outflow t
        then record s {
          total_withdrawal_amount = s.total_withdrawal_amount +ℤ amount_of t;
          total_units_redeemed = s.total_units_redeemed +ℤ units_of t;
          fund_breakdown = fund_breakdown;
        }
        else record s { fund_breakdown = fund_breakdown })

unfoldable pub summary_from : FinancialSummary → List ParsedFundTransaction → FinancialSummary
unfolding add_transaction
summary_from s [] = s
summary_from s (t ∷ ts) = summary_from (add_transaction s t) ts

abbrev pub empty_summary : FinancialSummary
empty_summary = record {
  total_deposit_amount = pos 0;
  total_withdrawal_amount = pos 0;
  total_units_issued = pos 0;
  total_units_redeemed = pos 0;
  fund_breakdown = [];
}

unfoldable pub calculate_financial_summary : List ParsedFundTransaction → FinancialSummary
unfolding summary_from
calculate_financial_summary ts = summary_from empty_summary ts
