-- ===== src/Validation/Fields.antt =====
-- `FundTransactionValidator.validate` and its parts,
-- src/services/fund-upload/validators/FundTransactionValidator.ts.
use xeno_reconciliation.Prelude.{
  ℕ, ◌+◌, ◌*◌, Bool, true, false, not, ◌&&◌, ◌||◌, Option, none, some, List, [], ◌∷◌, ◌++◌, ◌==◌,
  nat_eq, list_eq, leb, ltb, includes,
}
use xeno_reconciliation.Prelude.Int.{
  ℤ, pos, ◌-ℤ◌, abs, ltb_ℤ, leb_ℤ, int_eq, ◌*ₙ◌, pos_part, neg_part, sub_ℕ,
}
use xeno_reconciliation.Prelude.Text.{Text, codes}
use xeno_reconciliation.Validation.Types.{
  ParsedFundTransaction, TransactionValidationError, ValidationConfig, Clock, push_if, critical,
  warning, required_fund_transaction_id, required_transaction_date, required_client_name,
  required_fund_code, required_amount, required_units, required_account_number,
  required_goal_number, required_transaction_id, required_source, date_not_future,
  date_within_range, amount_positive, amount_exceeds_maximum, units_positive,
  units_calculation_valid, withdrawal_calculation_valid, required_offer_price, required_bid_price,
  missing_mid_price, prices_positive, price_relationship_valid, fund_code_valid,
  account_number_format, goal_number_format, invalid_transaction_type,
}
use xeno_reconciliation.Validation.Strings.{is_empty, is_valid_account_number, is_valid_goal_number}

abbrev pub is_missing {ℓ} : {A : Type ℓ} → Option A → Bool
is_missing none = true
is_missing (some a) = false

-- The value where there is one, else 0.
abbrev pub value_of : Option ℤ → ℤ
value_of none = pos 0
value_of (some n) = n

-- `x` as a condition: there is a number, and it is not 0.
abbrev pub is_set : Option ℤ → Bool
is_set n = not (value_of n == pos 0)

-- There is a number, and it is not above 0.
abbrev pub is_nonpositive : Option ℤ → Bool
is_nonpositive n = not (is_missing n) && leb_ℤ (value_of n) (pos 0)

abbrev pub is_deposit : ParsedFundTransaction → Bool
is_deposit t = t.transaction_type == codes "DEPOSIT"

abbrev pub is_withdrawal : ParsedFundTransaction → Bool
is_withdrawal t = t.transaction_type == codes "WITHDRAWAL"

unfoldable pub validate_required_fields : ParsedFundTransaction → List TransactionValidationError
unfolding is_empty
validate_required_fields t =
    push_if (is_empty t.fund_transaction_id) t.row_number required_fund_transaction_id critical
    ++ push_if (is_missing t.transaction_date) t.row_number required_transaction_date critical
    ++ push_if (is_empty t.client_name) t.row_number required_client_name critical
    ++ push_if (is_empty t.fund_code) t.row_number required_fund_code critical
    ++ push_if (is_missing t.amount) t.row_number required_amount critical
    ++ push_if (is_missing t.units) t.row_number required_units critical
    ++ push_if (is_empty t.account_number) t.row_number required_account_number critical
    ++ push_if (is_empty t.goal_number) t.row_number required_goal_number critical

-- `new Date('2025-01-01')`
abbrev pub source_tracking_required_from : ℤ
source_tracking_required_from = pos 1_735_689_600_000

-- A missing date counts as time 0.
abbrev pub is_source_tracking_required : ParsedFundTransaction → Bool
is_source_tracking_required t = leb_ℤ source_tracking_required_from (value_of t.transaction_date)

unfoldable pub validate_source_tracking : ParsedFundTransaction → List TransactionValidationError
unfolding is_empty
validate_source_tracking t =
    push_if (is_empty t.transaction_id && is_source_tracking_required t) t.row_number
      required_transaction_id critical
    ++ push_if (is_missing t.source && is_source_tracking_required t) t.row_number required_source
        critical

unfoldable pub is_future_date : Clock → ℤ → Bool
is_future_date clock date = ltb_ℤ clock.midnight date

unfoldable pub is_date_in_range : Clock → ℤ → ℕ → ℕ → Bool
is_date_in_range clock date years_past years_future =
    leb_ℤ (clock.years_ago years_past) date && leb_ℤ date (clock.years_ahead years_future)

unfoldable pub validate_dates :
    ValidationConfig → Clock → ParsedFundTransaction → List TransactionValidationError
unfolding is_future_date is_date_in_range
validate_dates config clock t = elim t.transaction_date [
  | none ↦ []
  | some date ↦
      push_if (is_future_date clock date) t.row_number date_not_future warning
      ++ push_if
          (not (
            is_date_in_range clock date config.date_range_years_past
              config.date_range_years_future))
          t.row_number date_within_range warning
]

unfoldable pub validate_amounts :
    ValidationConfig → ParsedFundTransaction → List TransactionValidationError
validate_amounts config t =
    push_if (is_nonpositive t.amount && not (is_withdrawal t)) t.row_number amount_positive warning
    ++ push_if (not (is_missing t.amount) && ltb config.amount_max (abs (value_of t.amount)))
        t.row_number amount_exceeds_maximum warning

-- The product of two numbers in millionths, in millionths of a millionth.
infixl 70 ◌*ℤ◌
unfoldable pub ◌*ℤ◌ : ℤ → ℤ → ℤ
a *ℤ b =
    sub_ℕ (pos_part a * pos_part b + neg_part a * neg_part b)
      (pos_part a * neg_part b + neg_part a * pos_part b)

-- `areEqual(units, amount / offerPrice, tolerance)`, multiplied by the price, which is not 0
unfoldable pub units_agree : ℕ → ℤ → ℤ → ℤ → Bool
unfolding ◌*ℤ◌
units_agree tol units amount offer_price =
    leb (abs (units *ℤ offer_price -ℤ 1_000_000 *ₙ amount)) (tol * abs offer_price)

-- `areEqual(amount, units * bidPrice, tolerance)`
unfoldable pub withdrawal_agrees : ℕ → ℤ → ℤ → ℤ → Bool
unfolding ◌*ℤ◌
withdrawal_agrees tol units amount bid_price =
    leb (abs (1_000_000 *ₙ amount -ℤ units *ℤ bid_price)) (1_000_000 * tol)

unfoldable pub validate_units :
    ValidationConfig → ParsedFundTransaction → List TransactionValidationError
unfolding units_agree withdrawal_agrees
validate_units config t = elim t.units [
  | none ↦ []
  | some units ↦
      push_if (leb_ℤ units (pos 0) && not (is_withdrawal t)) t.row_number units_positive warning
      ++ push_if
          (is_deposit t
            && is_set t.amount
            && is_set t.offer_price
            && not (
                units_agree config.unit_trust_tolerance units (value_of t.amount)
                  (value_of t.offer_price)))
          t.row_number units_calculation_valid warning
      ++ push_if
          (is_withdrawal t
            && is_set t.amount
            && is_set t.bid_price
            && not (
                withdrawal_agrees config.unit_trust_tolerance units (value_of t.amount)
                  (value_of t.bid_price)))
          t.row_number withdrawal_calculation_valid warning
]

unfoldable pub validate_prices : ParsedFundTransaction → List TransactionValidationError
validate_prices t =
    push_if (is_deposit t && is_missing t.offer_price) t.row_number required_offer_price critical
    ++ push_if (is_withdrawal t && is_missing t.bid_price) t.row_number required_bid_price critical
    ++ push_if (is_missing t.mid_price) t.row_number missing_mid_price warning
    ++ push_if (is_nonpositive t.bid_price) t.row_number prices_positive warning
    ++ push_if (is_nonpositive t.offer_price) t.row_number prices_positive warning
    ++ push_if (is_nonpositive t.mid_price) t.row_number prices_positive warning
    ++ push_if
        (is_set t.bid_price
          && is_set t.mid_price
          && is_set t.offer_price
          && (ltb_ℤ (value_of t.mid_price) (value_of t.bid_price)
              || ltb_ℤ (value_of t.offer_price) (value_of t.mid_price)))
        t.row_number price_relationship_valid warning

abbrev pub allowed_fund_codes : List Text
allowed_fund_codes = codes "XUMMF" ∷ codes "XUBF" ∷ codes "XUDEF" ∷ codes "XUREF" ∷ []

abbrev pub allowed_types : List Text
allowed_types =
    codes "DEPOSIT"
    ∷ codes "WITHDRAWAL"
    ∷ codes "REDEMPTION"
    ∷ codes "SWITCH"
    ∷ codes "DIVIDEND"
    ∷ codes "TRANSFER"
    ∷ []

unfoldable pub validate_business_rules : ParsedFundTransaction → List TransactionValidationError
unfolding is_valid_account_number is_valid_goal_number
validate_business_rules t =
    push_if (not (includes allowed_fund_codes t.fund_code)) t.row_number fund_code_valid warning
    ++ push_if (not (is_valid_account_number t.account_number)) t.row_number account_number_format
        warning
    ++ push_if (not (is_valid_goal_number t.goal_number)) t.row_number goal_number_format warning
    ++ push_if (not (includes allowed_types t.transaction_type)) t.row_number
        invalid_transaction_type warning

unfoldable pub validate :
    ValidationConfig → Clock → ParsedFundTransaction → List TransactionValidationError
unfolding validate_required_fields validate_source_tracking validate_dates validate_amounts
    validate_units validate_prices validate_business_rules
validate config clock t =
    validate_required_fields t
    ++ validate_source_tracking t
    ++ validate_dates config clock t
    ++ validate_amounts config t
    ++ validate_units config t
    ++ validate_prices t
    ++ validate_business_rules t
