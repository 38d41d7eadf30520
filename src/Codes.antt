-- ===== src/Codes.antt =====
-- The codes that link fund transactions: `GoalTransactionCodeGenerator` of
-- src/services/fund-upload/calculators/GoalTransactionCodeGenerator.ts, and the `formatDate` of
-- src/utils/dateUtils.ts that it calls.
pub mod Parts
pub mod Roundtrip
pub mod Grouping
mod Tests
use xeno_reconciliation.Prelude.{
  ℕ, ◌-◌, Bool, true, false, not, ◌&&◌, Option, none, some, List, [], ◌∷◌, ◌++◌, ltb, leb,
  if◌then◌else◌, length, take, drop, ◌==◌, nat_eq, list_eq,
}
use xeno_reconciliation.Prelude.Text.{Text, trim, split, join, digits, pad2, is_digit}
use xeno_reconciliation.Prelude.Dict.{Dict, group_by}

-- A valid `Date`, by what `getFullYear`, `getMonth() + 1` and `getDate` answer.
pub record CalendarDate : Type 0 where
  pub year : ℕ
  pub month : ℕ
  pub day : ℕ

abbrev pub dash : ℕ
dash = b'-'

-- `DateUtils.formatDate`, of a valid date
unfoldable pub format_date : CalendarDate → Text
format_date d = digits d.year ++ dash ∷ (pad2 (digits d.month) ++ dash ∷ pad2 (digits d.day))

abbrev pub is_empty : Text → Bool
is_empty [] = true
is_empty (c ∷ s) = false

-- `generate`, of a `Date`; a missing id or source is the empty text.
unfoldable pub generate : CalendarDate → Text → Text → Text → Text → Text
unfolding format_date trim
generate date account goal transaction_id source =
    let date_str = format_date date in
    let clean_account = trim account in
    let clean_goal = trim goal in
    let clean_transaction_id = trim transaction_id in
    let clean_source = trim source in
    if is_empty clean_transaction_id && is_empty clean_source
    then date_str ++ dash ∷ (clean_account ++ dash ∷ clean_goal)
    else date_str
      ++ dash
        ∷ (clean_account
            ++ dash ∷ (clean_goal ++ dash ∷ (clean_transaction_id ++ dash ∷ clean_source)))

-- `/^\d{4}-\d{2}-\d{2}/.test(s)`
abbrev pub is_date_text : Text → Bool
is_date_text (a ∷ b ∷ c ∷ d ∷ e ∷ f ∷ g ∷ h ∷ i ∷ j ∷ _) =
    is_digit a
    && is_digit b
    && is_digit c
    && is_digit d
    && (e == dash)
    && is_digit f
    && is_digit g
    && (h == dash)
    && is_digit i
    && is_digit j
is_date_text _ = false

abbrev pub first : List Text → Text
first [] = []
first (p ∷ ps) = p

-- `parts[i]` of an index that is in range
abbrev pub part : List Text → ℕ → Text
part ps i = first (drop i ps)

-- The first three parts, joined.
abbrev pub date_part : List Text → Text
date_part ps = part ps 0 ++ dash ∷ (part ps 1 ++ dash ∷ part ps 2)

unfoldable pub validate : Text → Bool
unfolding split
validate code =
    let parts = split dash code in
    if ltb (length parts) 5 then false else is_date_text (date_part parts)

pub record Parsed : Type 0 where
  pub transaction_date : Text
  pub account_number : Text
  pub goal_number : Text
  pub transaction_id : Text
  pub source : Text

-- `parts.slice(from, -n)`
abbrev pub slice_to : ℕ → ℕ → List Text → List Text
slice_to from n ps = drop from (take (length ps - n) ps)

unfoldable pub parse : Text → Option Parsed
unfolding join
parse code =
    let parts = split dash code in
    let n = length parts in
    if not (validate code)
    then none
    else if ltb n 5
    then none
    else if leb 7 n
    then some (record {
      transaction_date = date_part parts;
      account_number = join dash (slice_to 3 3 parts);
      goal_number = part parts (n - 3);
      transaction_id = part parts (n - 2);
      source = part parts (n - 1);
    })
    else some (record {
      transaction_date = date_part parts;
      account_number = join dash (slice_to 3 1 parts);
      goal_number = part parts (n - 1);
      transaction_id = [];
      source = [];
    })

-- `groupByCode`: the groups in the order of their first transaction.
unfoldable pub group_by_code {ℓ} : {A : Type ℓ} → (A → Text) → List A → Dict Text (List A)
unfolding group_by
group_by_code goal_transaction_code transactions = group_by goal_transaction_code transactions
