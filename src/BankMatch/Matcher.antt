-- ===== src/BankMatch/Matcher.antt =====
-- `matchTransaction` of src/services/reconciliation/BankReconciliationMatcher.ts, with the status
-- and the score of the variances.
use xeno_reconciliation.Prelude.{
  ℕ, Bool, true, false, not, none, some, List, [], ◌∷◌, if◌then◌else◌, nat_eq, list_eq, any, all,
}
use xeno_reconciliation.Prelude.Int.{ℤ, pos, ◌-ℤ◌, abs, pos_part, sum_of, int_eq}
use xeno_reconciliation.Prelude.Text.{Text}
use xeno_reconciliation.Store.{ReconciliationStatus, FundTransaction}
use xeno_reconciliation.BankMatch.Types.{
  VarianceSeverity, DetectedVariance, BankMatchResult, ToleranceConfig, ParsedBankTransaction,
  bare_variance, amounts_match, calculate_amount_severity, total_amount_variance,
  missing_in_fund_system, low, medium, high, critical,
}
use xeno_reconciliation.BankMatch.Detection.{detect_variances}

-- Of severity high or critical.
abbrev pub is_severe : DetectedVariance → Bool
is_severe v = elim v.severity [ critical ↦ true | high ↦ true | medium ↦ false | low ↦ false ]

abbrev pub is_approvable : DetectedVariance → Bool
is_approvable v = v.auto_approved

unfoldable pub determine_status : List DetectedVariance → ReconciliationStatus × Bool
determine_status [] = (ReconciliationStatus.matched, true)
determine_status (v ∷ vs) =
    if any is_severe (v ∷ vs)
    then (ReconciliationStatus.manual_review, false)
    else if all is_approvable (v ∷ vs)
    then (ReconciliationStatus.auto_approved, true)
    else (ReconciliationStatus.manual_review, false)

-- What a variance takes off the score.
unfoldable pub penalty : VarianceSeverity → ℕ
penalty low = 5
penalty medium = 15
penalty high = 30
penalty critical = 50

unfoldable pub score_from : ℤ → List DetectedVariance → ℤ
unfolding penalty
score_from score [] = score
score_from score (v ∷ vs) = score_from (score -ℤ pos (penalty v.severity)) vs

-- `calculateMatchScore`; `Math.max(0, score)` is the part of the score from 0 up.
unfoldable pub calculate_match_score : List DetectedVariance → ℕ
unfolding score_from
calculate_match_score [] = 100
calculate_match_score (v ∷ vs) = pos_part (score_from (pos 100) (v ∷ vs))

abbrev pub row_amount : FundTransaction → ℤ
row_amount ft = ft.amount

-- The answer where the totals differ by more than the tolerance.
unfoldable pub total_mismatch : ToleranceConfig → ParsedBankTransaction → Text → ℤ → BankMatchResult
unfolding calculate_amount_severity
total_mismatch tolerance bank code fund_total =
    let difference = bank.total_amount -ℤ fund_total in
    record {
      matched = false;
      match_score = 50;
      goal_transaction_code = some code;
      variances =
          record (bare_variance total_amount_variance
            (calculate_amount_severity tolerance (abs difference)) false) {
              expected_value = some fund_total;
              actual_value = some bank.total_amount;
              difference_amount = some difference;
              difference_percentage = some (record { dividend = difference; divisor = fund_total });
            }
          ∷ [];
      status = ReconciliationStatus.variance_detected;
      auto_approved = false;
    }

abbrev pub missing_result : BankMatchResult
missing_result = record {
  matched = false;
  match_score = 0;
  goal_transaction_code = none;
  variances = bare_variance missing_in_fund_system critical false ∷ [];
  status = ReconciliationStatus.missing_in_fund;
  auto_approved = false;
}

abbrev pub with_variances : Text → List DetectedVariance → BankMatchResult
with_variances code variances = record {
  matched = true;
  match_score = calculate_match_score variances;
  goal_transaction_code = some code;
  variances = variances;
  status = (determine_status variances).0;
  auto_approved = (determine_status variances).1;
}

-- `matchTransaction`, from the fund transactions that its query answers
unfoldable pub match_transaction :
    ToleranceConfig → ParsedBankTransaction → List FundTransaction → BankMatchResult
unfolding amounts_match total_mismatch detect_variances determine_status calculate_match_score
match_transaction tolerance bank [] = missing_result
match_transaction tolerance bank (ft ∷ fts) =
    let fund_total = sum_of row_amount (ft ∷ fts) in
    if not (amounts_match tolerance bank.total_amount fund_total)
    then total_mismatch tolerance bank ft.goal_transaction_code fund_total
    else with_variances ft.goal_transaction_code (detect_variances tolerance bank ft fts)
