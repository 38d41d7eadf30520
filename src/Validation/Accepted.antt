-- ===== src/Validation/Accepted.antt =====
-- Which transactions of an upload have a critical error.
use xeno_reconciliation.Prelude.{
  ℕ, ◌*◌, ◌≡◌, refl, ◌↔◌, Bool, true, false, ◌&&◌, ◌||◌, Option, none, some, List, [], ◌∷◌, ◌++◌,
  arith, any, any-append,
}
use xeno_reconciliation.Prelude.Int.{ℤ, pos, leb_ℤ}
use xeno_reconciliation.Validation.Types.{
  ParsedFundTransaction, TransactionValidationError, ValidationConfig, Clock, is_critical, critical,
  warning, push_if, ErrorCode,
}
use xeno_reconciliation.Validation.Strings.{is_empty}
use xeno_reconciliation.Validation.Fields.{
  validate, validate_required_fields, validate_source_tracking, validate_dates, validate_amounts,
  validate_units, validate_prices, validate_business_rules, is_missing, is_deposit, is_withdrawal,
  value_of,
}

-- On or after 2025-01-01, which is 20,089 days after 1970-01-01; a missing date counts as 1970.
abbrev pub is_from_2025 : ParsedFundTransaction → Bool
is_from_2025 t = leb_ℤ (pos (20_089 * 86_400_000)) (value_of t.transaction_date)

-- What a transaction must have to be accepted.
pub record IsAcceptable (t : ParsedFundTransaction) : Type 0 where
  pub fund_transaction_id : is_empty t.fund_transaction_id ≡ false
  pub transaction_date : is_missing t.transaction_date ≡ false
  pub client_name : is_empty t.client_name ≡ false
  pub fund_code : is_empty t.fund_code ≡ false
  pub amount : is_missing t.amount ≡ false
  pub units : is_missing t.units ≡ false
  pub account_number : is_empty t.account_number ≡ false
  pub goal_number : is_empty t.goal_number ≡ false
  pub transaction_id : is_from_2025 t ≡ true → is_empty t.transaction_id ≡ false
  pub source : is_from_2025 t ≡ true → is_missing t.source ≡ false
  pub offer_price : is_deposit t ≡ true → is_missing t.offer_price ≡ false
  pub bid_price : is_withdrawal t ≡ true → is_missing t.bid_price ≡ false

-- What the last of a list of entries under conditions does to the test for a critical one.
pub critical_last :
    (errors : List TransactionValidationError) (condition : Bool) (row : ℕ) (code : ErrorCode)
    → any is_critical (errors ++ push_if condition row code critical)
      ≡ any is_critical errors || condition
critical_last [] true row code = refl
critical_last [] false row code = refl
critical_last (e ∷ errors) condition row code =
    ground (arith, critical_last errors condition row code)

pub warning_last :
    (errors : List TransactionValidationError) (condition : Bool) (row : ℕ) (code : ErrorCode)
    → any is_critical (errors ++ push_if condition row code warning) ≡ any is_critical errors
warning_last [] true row code = refl
warning_last [] false row code = refl
warning_last (e ∷ errors) condition row code =
    ground (arith, warning_last errors condition row code)

pub critical_only :
    (condition : Bool) (row : ℕ) (code : ErrorCode)
    → any is_critical (push_if condition row code critical) ≡ condition
critical_only true row code = refl
critical_only false row code = refl

pub warning_only :
    (condition : Bool) (row : ℕ) (code : ErrorCode)
    → any is_critical (push_if condition row code warning) ≡ false
warning_only true row code = refl
warning_only false row code = refl

-- What is only looked at where there is a number.
uncritical_where :
    (o : Option ℤ) (errors : ℤ → List TransactionValidationError)
    → ((n : ℤ) → any is_critical (errors n) ≡ false)
    → any is_critical (elim o [ none ↦ [] | some n ↦ errors n ]) ≡ false
uncritical_where none errors h = refl
uncritical_where (some n) errors h = h n

-- Which of the first eight fields is missing.
abbrev lacks_field : ParsedFundTransaction → Bool
lacks_field t =
    is_empty t.fund_transaction_id
    || is_missing t.transaction_date
    || is_empty t.client_name
    || is_empty t.fund_code
    || is_missing t.amount
    || is_missing t.units
    || is_empty t.account_number
    || is_empty t.goal_number

abbrev lacks_tracking : ParsedFundTransaction → Bool
lacks_tracking t =
    is_empty t.transaction_id && is_from_2025 t || is_missing t.source && is_from_2025 t

abbrev lacks_price : ParsedFundTransaction → Bool
lacks_price t =
    is_deposit t && is_missing t.offer_price || is_withdrawal t && is_missing t.bid_price

module _ (t : ParsedFundTransaction) where
  required_fields-critical : any is_critical (validate_required_fields t) ≡ lacks_field t
  unfolding validate_required_fields
  required_fields-critical = rw (
    critical_last, critical_last, critical_last, critical_last, critical_last, critical_last,
    critical_last, critical_only,
  )

  source_tracking-critical : any is_critical (validate_source_tracking t) ≡ lacks_tracking t
  unfolding validate_source_tracking
  source_tracking-critical = rw (critical_last, critical_only)

  prices-critical : any is_critical (validate_prices t) ≡ lacks_price t
  unfolding validate_prices
  prices-critical = rw (
    warning_last, warning_last, warning_last, warning_last, warning_last, critical_last,
    critical_only,
  )

  business_rules-critical : any is_critical (validate_business_rules t) ≡ false
  unfolding validate_business_rules
  business_rules-critical = rw (warning_last, warning_last, warning_last, warning_only)

module _ (config : ValidationConfig) (t : ParsedFundTransaction) where
  amounts-critical : any is_critical (validate_amounts config t) ≡ false
  unfolding validate_amounts
  amounts-critical = rw (warning_last, warning_only)

  units-critical : any is_critical (validate_units config t) ≡ false
  unfolding validate_units
  units-critical =
      uncritical_where t.units _ (λ units. rw (warning_last, warning_last, warning_only))

  dates-critical : (clock : Clock) → any is_critical (validate_dates config clock t) ≡ false
  unfolding validate_dates
  dates-critical clock =
      uncritical_where t.transaction_date _ (λ date. rw (warning_last, warning_only))

validate-critical :
    (config : ValidationConfig) (clock : Clock) (t : ParsedFundTransaction)
    → any is_critical (validate config clock t) ≡ lacks_field t || lacks_tracking t || lacks_price t
unfolding validate
validate-critical config clock t =
    rw
      (
        any-append,
        any-append,
        any-append,
        any-append,
        any-append,
        any-append,
        required_fields-critical t,
        source_tracking-critical t,
        dates-critical config t clock,
        amounts-critical config t,
        units-critical config t,
        prices-critical t,
        business_rules-critical t,
      )
      (ground arith)

-- A transaction has no critical error exactly where its required fields are there: eight always,
-- the transaction id and the source from 2025 on, the offer price of a deposit and the bid price of
-- a withdrawal. Nothing else that the validator finds is critical.
pub validate-IsAcceptable :
    (config : ValidationConfig) (clock : Clock) (t : ParsedFundTransaction)
    → (any is_critical (validate config clock t) ≡ false) ↔ IsAcceptable t
validate-IsAcceptable config clock t =
    let same = validate-critical config clock t in
    ((λ h. ground (arith, h, same)), (λ h. rw same (ground (arith, h))))
