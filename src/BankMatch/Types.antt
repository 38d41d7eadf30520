-- ===== src/BankMatch/Types.antt =====
-- The types, tolerances and severities of
-- src/services/reconciliation/BankReconciliationMatcher.ts.
use xeno_reconciliation.Prelude.{
  ℕ, ◌*◌, Bool, Option, none, List, if◌then◌else◌, nat_eq, list_eq, ltb, leb, max,
}
use xeno_reconciliation.Prelude.Int.{ℤ, ◌-ℤ◌, abs, int_eq}
use xeno_reconciliation.Prelude.Text.{Text}
use xeno_reconciliation.Store.{ReconciliationStatus}

pub data VarianceType : Type 0 where
  total_amount_variance fund_distribution_variance fund_amount_variance date_difference
        missing_in_bank_upload missing_in_fund_system :
      VarianceType

pub data VarianceSeverity : Type 0 where
  low medium high critical : VarianceSeverity

-- A quotient as it is written, since the code divides without looking at the divisor.
pub record Quotient : Type 0 where
  pub dividend : ℤ
  pub divisor : ℤ

pub record DetectedVariance : Type 0 where
  pub type : VarianceType
  pub severity : VarianceSeverity
  pub expected_value : Option ℤ
  pub actual_value : Option ℤ
  pub difference_amount : Option ℤ
  pub difference_percentage : Option Quotient
  pub fund_code : Option Text
  pub fund_expected_amount : Option ℤ
  pub fund_actual_amount : Option ℤ
  pub expected_date : Option ℕ
  pub actual_date : Option ℕ
  pub date_difference_days : Option ℕ
  pub auto_approved : Bool

pub record BankMatchResult : Type 0 where
  pub matched : Bool
  pub match_score : ℕ
  pub goal_transaction_code : Option Text
  pub variances : List DetectedVariance
  pub status : ReconciliationStatus
  pub auto_approved : Bool

pub record SeverityThresholds : Type 0 where
  pub low_below : ℕ
  pub medium_below : ℕ
  pub high_below : ℕ
  pub critical_from : ℕ

pub record ToleranceConfig : Type 0 where
  pub amount_percentage : ℕ
  pub amount_fixed : ℕ
  pub date_days : ℕ
  pub fund_distribution_percentage : ℕ
  pub severity_thresholds : SeverityThresholds

abbrev pub default_tolerance : ToleranceConfig
default_tolerance = record {
  amount_percentage = 1;
  amount_fixed = 100_000;
  date_days = 4;
  fund_distribution_percentage = 1;
  severity_thresholds = record {
    low_below = 100_000;
    medium_below = 1_000_000;
    high_below = 5_000_000;
    critical_from = 5_000_000;
  };
}

-- The fields of `ParsedBankTransaction` that the matcher reads.
pub record ParsedBankTransaction : Type 0 where
  pub goal_number : Text
  pub transaction_id : Text
  pub transaction_date : ℕ
  pub total_amount : ℤ
  pub xummf_amount : ℤ
  pub xubf_amount : ℤ
  pub xudef_amount : ℤ
  pub xuref_amount : ℤ

-- An entry with nothing but its type, severity and approval.
abbrev pub bare_variance : VarianceType → VarianceSeverity → Bool → DetectedVariance
bare_variance type severity approved = record {
  type = type;
  severity = severity;
  expected_value = none;
  actual_value = none;
  difference_amount = none;
  difference_percentage = none;
  fund_code = none;
  fund_expected_amount = none;
  fund_actual_amount = none;
  expected_date = none;
  actual_date = none;
  date_difference_days = none;
  auto_approved = approved;
}

module _ (tolerance : ToleranceConfig) where
  -- `amountsMatch`, with both sides times 100
  unfoldable pub amounts_match : ℤ → ℤ → Bool
  amounts_match amount1 amount2 =
      leb (100 * abs (amount1 -ℤ amount2))
        (max (abs amount2 * tolerance.amount_percentage) (100 * tolerance.amount_fixed))

  -- `calculateAmountSeverity`, of an absolute difference
  unfoldable pub calculate_amount_severity : ℕ → VarianceSeverity
  calculate_amount_severity difference =
      if ltb difference tolerance.severity_thresholds.low_below
      then low
      else if ltb difference tolerance.severity_thresholds.medium_below
      then medium
      else if ltb difference tolerance.severity_thresholds.high_below
      then high
      else critical
