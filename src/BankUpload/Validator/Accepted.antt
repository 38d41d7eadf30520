-- ===== src/BankUpload/Validator/Accepted.antt =====
-- Which bank transactions have a critical error of their own.
use xeno_reconciliation.Prelude.{
  ℕ, ◌≡◌, refl, ◌↔◌, Bool, true, false, not, ◌&&◌, ◌||◌, List, [], ◌∷◌, ◌++◌, any, includes, nat_eq,
  list_eq, ◌==◌, arith,
}
use xeno_reconciliation.Prelude.Int.{pos, ltb_ℤ, int_eq}
use xeno_reconciliation.Prelude.Text.{Text}
use xeno_reconciliation.Validation.Types.{critical, warning}
use xeno_reconciliation.Validation.Fields.{is_missing, value_of}
use xeno_reconciliation.BankUpload.Types.{
  ParsedBankTransaction, BankErrorCode, ValidationError, Locale, has_severity_critical,
}
use xeno_reconciliation.BankUpload.Validator.{
  create_error_if, is_blank, is_future, is_unknown_type, is_zero_total, validate_transaction,
  valid_transaction_types,
}

-- What a bank transaction must have: a date that is not in the future, a name, an account, a goal,
-- an id, a known type and an amount that is not 0.
pub record IsAcceptable (locale : Locale) (t : ParsedBankTransaction) : Type 0 where
  pub transaction_date : is_missing t.transaction_date ≡ false
  pub not_future : ltb_ℤ locale.end_of_today (value_of t.transaction_date) ≡ false
  pub name : is_blank t.first_name && is_blank t.last_name ≡ false
  pub account_number : is_blank t.account_number ≡ false
  pub goal_number : is_blank t.goal_number ≡ false
  pub transaction_id : is_blank t.transaction_id ≡ false
  pub transaction_type : is_blank t.transaction_type ≡ false
  pub known_type : includes valid_transaction_types (locale.to_upper_case t.transaction_type) ≡ true
  pub total_amount : is_missing t.total_amount ≡ false
  pub not_zero : (value_of t.total_amount == pos 0) ≡ false

pub bank_critical_last :
    (errors : List ValidationError) (condition : Bool) (row : ℕ) (field : Text)
    (code : BankErrorCode)
    → any has_severity_critical (errors ++ create_error_if condition row field code critical)
      ≡ any has_severity_critical errors || condition
bank_critical_last [] true row field code = refl
bank_critical_last [] false row field code = refl
bank_critical_last (e ∷ errors) condition row field code =
    ground (arith, bank_critical_last errors condition row field code)

bank_warning_last :
    (errors : List ValidationError) (condition : Bool) (row : ℕ) (field : Text)
    (code : BankErrorCode)
    → any has_severity_critical (errors ++ create_error_if condition row field code warning)
      ≡ any has_severity_critical errors
bank_warning_last [] true row field code = refl
bank_warning_last [] false row field code = refl
bank_warning_last (e ∷ errors) condition row field code =
    ground (arith, bank_warning_last errors condition row field code)

bank_critical_only :
    (condition : Bool) (row : ℕ) (field : Text) (code : BankErrorCode)
    → any has_severity_critical (create_error_if condition row field code critical) ≡ condition
bank_critical_only true row field code = refl
bank_critical_only false row field code = refl

validate_transaction-critical :
    (locale : Locale) (t : ParsedBankTransaction)
    → any has_severity_critical (validate_transaction locale t)
      ≡ is_missing t.transaction_date
        || is_blank t.first_name && is_blank t.last_name
        || is_blank t.account_number
        || is_blank t.goal_number
        || is_blank t.transaction_id
        || is_blank t.transaction_type
        || is_unknown_type locale t
        || is_missing t.total_amount
        || is_zero_total t
        || is_future locale t
unfolding validate_transaction
validate_transaction-critical locale t = rw (
  bank_warning_last, bank_warning_last, bank_warning_last, bank_critical_last, bank_critical_last,
  bank_critical_last, bank_critical_last, bank_critical_last, bank_critical_last,
  bank_critical_last, bank_critical_last, bank_critical_last, bank_critical_only,
)

or_false : (a b : Bool) → a || b ≡ false → (a ≡ false) × (b ≡ false)
or_false a b h = (ground (arith, h), ground (arith, h))

guarded_false : (a b : Bool) → not a && b ≡ false → a ≡ false → b ≡ false
guarded_false a b h k = ground (arith, h, k)

not-false : (b : Bool) → not b ≡ false → b ≡ true
not-false b h = ground (arith, h)

module _ (locale : Locale) (t : ParsedBankTransaction) where
  acceptable :
      any has_severity_critical (validate_transaction locale t) ≡ false → IsAcceptable locale t
  acceptable h =
      let (h9, future) =
        or_false _ (is_future locale t) (rw (validate_transaction-critical locale t) at h) in
      let (h8, zero_total) = or_false _ (is_zero_total t) h9 in
      let (h7, amount) = or_false _ (is_missing t.total_amount) h8 in
      let (h6, unknown) = or_false _ (is_unknown_type locale t) h7 in
      let (h5, type) = or_false _ (is_blank t.transaction_type) h6 in
      let (h4, id) = or_false _ (is_blank t.transaction_id) h5 in
      let (h3, goal) = or_false _ (is_blank t.goal_number) h4 in
      let (h2, account) = or_false _ (is_blank t.account_number) h3 in
      let (date, name) = or_false (is_missing t.transaction_date) _ h2 in
      record {
        transaction_date = date;
        not_future =
            guarded_false (is_missing t.transaction_date)
              (ltb_ℤ locale.end_of_today (value_of t.transaction_date)) future date;
        name = name;
        account_number = account;
        goal_number = goal;
        transaction_id = id;
        transaction_type = type;
        known_type =
            not-false (includes valid_transaction_types (locale.to_upper_case t.transaction_type))
              (guarded_false (is_blank t.transaction_type) _ unknown type);
        total_amount = amount;
        not_zero =
            guarded_false (is_missing t.total_amount) (value_of t.total_amount == pos 0) zero_total
              amount;
      }

  accepted :
      IsAcceptable locale t → any has_severity_critical (validate_transaction locale t) ≡ false
  accepted ok =
      rw
        (
          validate_transaction-critical locale t,
          ok.transaction_date,
          ok.not_future,
          ok.name,
          ok.account_number,
          ok.goal_number,
          ok.transaction_id,
          ok.transaction_type,
          ok.known_type,
          ok.total_amount,
          ok.not_zero,
        )
        refl

-- A bank transaction has no critical error of its own exactly where it has a date that is not after
-- today, a first or a last name, an account, a goal and an id, a known type in any case of letters,
-- and an amount that is not 0. What is wrong with percentages and amounts of funds is not critical.
pub validate_transaction-IsAcceptable :
    (locale : Locale) (t : ParsedBankTransaction)
    → (any has_severity_critical (validate_transaction locale t) ≡ false) ↔ IsAcceptable locale t
validate_transaction-IsAcceptable locale t = (acceptable locale t, accepted locale t)
