-- ===== src/BankMatch/Detection.antt =====
-- `detectVariances` of src/services/reconciliation/BankReconciliationMatcher.ts.
use xeno_reconciliation.Prelude.{
  ℕ, ◌+◌, ◌-◌, ◌*◌, ◌/◌, Bool, true, false, not, ◌&&◌, none, some, List, [], ◌∷◌, ◌++◌,
  if◌then◌else◌, ◌==◌, nat_eq, list_eq, ltb, leb,
}
use xeno_reconciliation.Prelude.Int.{ℤ, pos, ◌-ℤ◌, abs, int_eq}
use xeno_reconciliation.Prelude.Text.{Text, codes}
use xeno_reconciliation.Prelude.Dict.{Dict, insert, lookup}
use xeno_reconciliation.Store.{FundTransaction}
use xeno_reconciliation.BankMatch.Types.{
  VarianceSeverity, DetectedVariance, ToleranceConfig, ParsedBankTransaction, bare_variance,
  calculate_amount_severity, fund_amount_variance, date_difference, low, medium, high, critical,
}

abbrev pub day_ms : ℕ
day_ms = 86_400_000

-- `Math.abs(Math.floor((bank - fund) / day))`: a quotient below 0 is rounded away from 0.
unfoldable pub date_difference_of : ℕ → ℕ → ℕ
date_difference_of bank fund =
    if leb fund bank then (bank - fund) / day_ms else (fund - bank + (day_ms - 1)) / day_ms

abbrev pub dated : ℕ → ℕ → ℕ → DetectedVariance → DetectedVariance
dated bank fund days v = record v {
  expected_date = some fund;
  actual_date = some bank;
  date_difference_days = some days;
}

-- The first part of `detectVariances`: the day of the transaction.
unfoldable pub date_variances : ToleranceConfig → ℕ → ℕ → List DetectedVariance
unfolding date_difference_of
date_variances tolerance bank fund =
    let days = date_difference_of bank fund in
    if ltb 0 days && leb days tolerance.date_days
    then dated bank fund days (bare_variance date_difference low true) ∷ []
    else if ltb tolerance.date_days days
    then dated bank fund days (bare_variance date_difference medium false) ∷ []
    else []

-- `fundAmounts[fundCode] = Number(ft.amount)` for each of the fund transactions
unfoldable pub fund_amounts_from : Dict Text ℤ → List FundTransaction → Dict Text ℤ
fund_amounts_from amounts [] = amounts
fund_amounts_from amounts (ft ∷ fts) = fund_amounts_from (insert ft.fund_code ft.amount amounts) fts

-- `fundAmounts[fundCode] || 0`
abbrev pub amount_at : Dict Text ℤ → Text → ℤ
amount_at amounts code = elim (lookup code amounts) [ none ↦ pos 0 | some amount ↦ amount ]

abbrev pub fund_codes : List Text
fund_codes = codes "XUMMF" ∷ codes "XUBF" ∷ codes "XUDEF" ∷ codes "XUREF" ∷ []

-- The property of the bank transaction that the fund code names.
unfoldable pub bank_fund_amount : ParsedBankTransaction → Text → ℤ
bank_fund_amount bank code =
    if code == codes "XUMMF"
    then bank.xummf_amount
    else if code == codes "XUBF"
    then bank.xubf_amount
    else if code == codes "XUDEF"
    then bank.xudef_amount
    else if code == codes "XUREF"
    then bank.xuref_amount
    else pos 0

abbrev pub is_low : VarianceSeverity → Bool
is_low low = true
is_low medium = false
is_low high = false
is_low critical = false

-- The difference is more than `percent` of the fund amount; of a fund amount 0 it is taken for 0.
abbrev pub exceeds : ℕ → ℕ → ℤ → Bool
exceeds percent difference fund_amount =
    not (fund_amount == pos 0) && ltb (abs fund_amount * percent) (100 * difference)

-- The body of the loop over the fund codes.
unfoldable pub fund_variance : ToleranceConfig → Text → ℤ → ℤ → List DetectedVariance
unfolding calculate_amount_severity
fund_variance tolerance code bank_amount fund_amount =
    let difference = abs (bank_amount -ℤ fund_amount) in
    let severity = calculate_amount_severity tolerance difference in
    let percent = tolerance.fund_distribution_percentage in
    if exceeds percent difference fund_amount
    then record (bare_variance fund_amount_variance severity
        (is_low severity && not (exceeds (percent * 2) difference fund_amount))) {
          fund_code = some code;
          fund_expected_amount = some fund_amount;
          fund_actual_amount = some bank_amount;
          difference_amount = some (bank_amount -ℤ fund_amount);
          difference_percentage =
              some (record { dividend = pos (100 * difference); divisor = pos (abs fund_amount) });
        }
      ∷ []
    else []

unfoldable pub fund_variances :
    ToleranceConfig → ParsedBankTransaction → Dict Text ℤ → List Text → List DetectedVariance
unfolding fund_variance bank_fund_amount
fund_variances tolerance bank amounts [] = []
fund_variances tolerance bank amounts (code ∷ more) =
    fund_variance tolerance code (bank_fund_amount bank code) (amount_at amounts code)
    ++ fund_variances tolerance bank amounts more

-- `detectVariances`, of a list that has a first fund transaction
unfoldable pub detect_variances :
    ToleranceConfig
    → ParsedBankTransaction
    → FundTransaction
    → List FundTransaction
    → List DetectedVariance
unfolding date_variances fund_amounts_from fund_variances
detect_variances tolerance bank ft fts =
    date_variances tolerance bank.transaction_date (day_ms * ft.transaction_date)
    ++ fund_variances tolerance bank (fund_amounts_from [] (ft ∷ fts)) fund_codes
