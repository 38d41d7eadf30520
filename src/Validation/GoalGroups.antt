-- ===== src/Validation/GoalGroups.antt =====
-- `GoalTransactionValidator`, src/services/fund-upload/validators/GoalTransactionValidator.ts.
use xeno_reconciliation.Prelude.{
  HasEq, ℕ, ◌/◌, ◌+◌, ◌*◌, Bool, true, not, Option, none, some, List, [], ◌∷◌, ◌++◌, map,
  if◌then◌else◌, ◌==◌, nat_eq, list_eq, option_eq, any, filter_by, includes, length, ltb, nat_beq,
}
use xeno_reconciliation.Prelude.Int.{ℤ, pos, negsuc, ◌-ℤ◌, ◌*ₙ◌, abs, ltb_ℤ, int_eq, sum_of}
use xeno_reconciliation.Prelude.Text.{Text, codes}
use xeno_reconciliation.Prelude.Dict.{Dict, lookup}
use xeno_reconciliation.Codes.{group_by_code}
use xeno_reconciliation.Validation.Types.{
  ParsedFundTransaction, TransactionValidationError, ValidationConfig, push_if, critical, warning,
  goal_transaction_same_client, goal_transaction_same_date, goal_transaction_same_account,
  goal_transaction_same_goal, goal_transaction_same_transaction_id, goal_transaction_same_source,
  goal_transaction_complete_fund_set, missing_expected_funds, goal_transaction_zero_amounts,
  fund_not_in_distribution, fund_distribution_matches_goal,
}
use xeno_reconciliation.Validation.Fields.{is_missing, value_of}

-- `new Set(xs)`: the elements without repetition, in the order in which they are met.
module _ {ℓ} {A : Type ℓ} ⦃e : HasEq A⦄ where
  unfoldable pub set_from : List A → List A → List A
  set_from seen [] = seen
  set_from seen (x ∷ xs) =
      let old = set_from seen xs in
      let new = set_from (seen ++ x ∷ []) xs in if includes seen x then old else new

  -- `new Set(xs).size > 1`
  unfoldable pub has_several : List A → Bool
  unfolding set_from
  has_several xs = ltb 1 (length (set_from [] xs))

abbrev pub goal_code : ParsedFundTransaction → Text
goal_code t = t.goal_transaction_code

-- The day that `toISOString().split('T')[0]` writes, as the number of days since 1970.
abbrev pub iso_day : ℤ → ℤ
iso_day (pos ms) = pos (ms / 86_400_000)
iso_day (negsuc ms) = negsuc (ms / 86_400_000)

abbrev pub day_of : ParsedFundTransaction → ℤ
day_of t = iso_day (value_of t.transaction_date)

abbrev pub client_of : ParsedFundTransaction → Text
client_of t = t.client_name

abbrev pub account_of : ParsedFundTransaction → Text
account_of t = t.account_number

abbrev pub goal_of : ParsedFundTransaction → Text
goal_of t = t.goal_number

abbrev pub tracking_of : ParsedFundTransaction → Text
tracking_of t = t.transaction_id

abbrev pub source_of : ParsedFundTransaction → Option Text
source_of t = t.source

abbrev pub fund_of : ParsedFundTransaction → Text
fund_of t = t.fund_code

abbrev pub amount_of : ParsedFundTransaction → ℤ
amount_of t = value_of t.amount

-- `transactions[0].rowNumber`
abbrev pub first_row : List ParsedFundTransaction → ℕ
first_row [] = 0
first_row (t ∷ ts) = t.row_number

abbrev pub expected_funds : List Text
expected_funds = codes "XUMMF" ∷ codes "XUBF" ∷ codes "XUDEF" ∷ codes "XUREF" ∷ []

abbrev pub missing_funds : List ParsedFundTransaction → List Text
missing_funds ts = filter_by (λ f. not (includes (map fund_of ts) f)) expected_funds

-- An amount of 0 that is there.
abbrev pub is_zero_amount : ParsedFundTransaction → Bool
is_zero_amount t = t.amount == some (pos 0)

-- `validateGroup`
unfoldable pub validate_group : List ParsedFundTransaction → List TransactionValidationError
unfolding has_several
validate_group ts =
    let row = first_row ts in
    push_if (has_several (map client_of ts)) row goal_transaction_same_client critical
    ++ push_if (has_several (map day_of ts)) row goal_transaction_same_date critical
    ++ push_if (has_several (map account_of ts)) row goal_transaction_same_account critical
    ++ push_if (has_several (map goal_of ts)) row goal_transaction_same_goal critical
    ++ push_if (has_several (map tracking_of ts)) row goal_transaction_same_transaction_id critical
    ++ push_if (has_several (map source_of ts)) row goal_transaction_same_source critical
    ++ push_if (not (nat_beq (length ts) 4)) row goal_transaction_complete_fund_set warning
    ++ push_if (ltb 0 (length (missing_funds ts))) row missing_expected_funds warning
    ++ push_if (any is_zero_amount ts) row goal_transaction_zero_amounts warning

unfoldable pub validate_groups :
    Dict Text (List ParsedFundTransaction) → List TransactionValidationError
unfolding validate_group
validate_groups [] = []
validate_groups ((code, ts) ∷ groups) = validate_group ts ++ validate_groups groups

-- `validateGoalTransactionGroups`; `none` where it throws, for a date that is missing
unfoldable pub validate_goal_transaction_groups :
    List ParsedFundTransaction → Option (List TransactionValidationError)
unfolding group_by_code validate_groups
validate_goal_transaction_groups ts =
    if any (λ t. is_missing t.transaction_date) ts
    then none
    else some (validate_groups (group_by_code goal_code ts))

-- `goalFundDistribution[fundCode] || 0`, in hundredths of a percent
abbrev pub percentage_at : Dict Text ℕ → Text → ℕ
percentage_at distribution code = elim (lookup code distribution) [
  | none ↦ 0
  | some percentage ↦ percentage
]

-- `Math.abs(expectedAmount - actualAmount) > totalAmount * tolerance`, both sides times a million
unfoldable pub is_off_distribution : ValidationConfig → ℤ → ℕ → ℤ → Bool
is_off_distribution config total percentage actual =
    ltb_ℤ (config.fund_distribution_tolerance *ₙ total)
      (pos (abs ((100 * percentage) *ₙ total -ℤ 1_000_000 *ₙ actual)))

unfoldable pub distribution_errors :
    ValidationConfig
    → Dict Text ℕ
    → ℤ
    → List ParsedFundTransaction
    → List TransactionValidationError
unfolding is_off_distribution
distribution_errors config distribution total [] = []
distribution_errors config distribution total (t ∷ ts) =
    let percentage = percentage_at distribution t.fund_code in
    (if nat_beq percentage 0
      then push_if true t.row_number fund_not_in_distribution warning
      else push_if (is_off_distribution config total percentage (amount_of t)) t.row_number
          fund_distribution_matches_goal warning)
    ++ distribution_errors config distribution total ts

unfoldable pub validate_fund_distribution :
    ValidationConfig → List ParsedFundTransaction → Dict Text ℕ → List TransactionValidationError
unfolding distribution_errors
validate_fund_distribution config ts distribution =
    let total = sum_of amount_of ts in
    if total == pos 0 then [] else distribution_errors config distribution total ts

pub record GroupStatistics : Type 0 where
  pub total_groups : ℕ
  pub complete_groups : ℕ
  pub incomplete_groups : ℕ
  pub total_funds : ℕ

abbrev pub count_group : List ParsedFundTransaction → GroupStatistics → GroupStatistics
count_group ts s =
    if nat_beq (length ts) 4
    then record s {
      total_groups = s.total_groups + 1;
      complete_groups = s.complete_groups + 1;
      total_funds = s.total_funds + length ts;
    }
    else record s {
      total_groups = s.total_groups + 1;
      incomplete_groups = s.incomplete_groups + 1;
      total_funds = s.total_funds + length ts;
    }

abbrev pub statistics_from :
    GroupStatistics → Dict Text (List ParsedFundTransaction) → GroupStatistics
statistics_from s [] = s
statistics_from s ((code, ts) ∷ groups) = statistics_from (count_group ts s) groups

-- `getGroupStatistics`; the average is `total_funds` over `total_groups`, and 0 for no group
unfoldable pub get_group_statistics : List ParsedFundTransaction → GroupStatistics
unfolding group_by_code
get_group_statistics ts =
    statistics_from
      (record { total_groups = 0; complete_groups = 0; incomplete_groups = 0; total_funds = 0 })
      (group_by_code goal_code ts)
