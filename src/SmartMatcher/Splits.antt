-- ===== src/SmartMatcher/Splits.antt =====
-- The split detection of `SmartMatcher.getGoalTransactions`, and the passes in their order.
use xeno_reconciliation.Prelude.{
  ℕ, Bool, not, ◌&&◌, List, [], ◌∷◌, map, flatten, if◌then◌else◌, ◌==◌, nat_eq, pair_eq, filter_by,
  length, ltb,
}
use xeno_reconciliation.Prelude.Int.{sum_of}
use xeno_reconciliation.Prelude.Text.{Text}
use xeno_reconciliation.Prelude.Dict.{Dict, group_by, group_of}
use xeno_reconciliation.Store.{TransactionType, type_eq, BankTransaction}
use xeno_reconciliation.SmartMatcher.Tolerance.{tolerance}
use xeno_reconciliation.SmartMatcher.Combination.{Item, amount_of, find_combination_sum}
use xeno_reconciliation.SmartMatcher.Groups.{Group}
use xeno_reconciliation.SmartMatcher.Passes.{
  split_bank_to_fund, split_fund_to_bank, MatchResult, Matching, no_matches, push_result,
  add_bank_ids, add_fund_ids, is_taken, is_open, group_manual, manual_pass, exact_pass, amount_pass,
}

-- `${dateStr}-${type}`: the key names a day and a type.
abbrev pub DayKey : Type 0
DayKey = ℕ × TransactionType

abbrev pub bank_key : BankTransaction → DayKey
bank_key b = (b.transaction_date, b.transaction_type)

abbrev pub bank_item : BankTransaction → Item Text
bank_item b = record { id = b.id; amount = b.total_amount }

abbrev pub item_id {ℓ} : {A : Type ℓ} → Item A → A
item_id i = i.id

-- PASS 3: several bank transactions of a day make one goal transaction.
abbrev pub bank_split_match : List (Item Text) → Group → MatchResult
bank_split_match combination g = record {
  bank_ids = map item_id combination;
  fund_ids = g.ids;
  match_type = split_bank_to_fund;
  confidence = 70;
  bank_total = sum_of amount_of combination;
  fund_total = g.total;
}

abbrev pub bank_combination :
    Dict DayKey (List BankTransaction) → Matching → Group → List (Item Text)
bank_combination by_key s g =
    find_combination_sum
      (map bank_item (filter_by (λ b. not (is_taken s b)) (group_of (g.date, g.type) by_key)))
      g.total (tolerance g.total)

unfoldable pub bank_split_step : Dict DayKey (List BankTransaction) → Group → Matching → Matching
bank_split_step by_key g s =
    if not (is_open s g)
    then s
    else if ltb 1 (length (bank_combination by_key s g))
    then add_fund_ids g.ids (
        add_bank_ids (map item_id (bank_combination by_key s g))
          (push_result (bank_split_match (bank_combination by_key s g) g) s))
    else s

unfoldable pub bank_split_pass :
    Dict DayKey (List BankTransaction) → List Group → Matching → Matching
unfolding bank_split_step
bank_split_pass by_key [] s = s
bank_split_pass by_key (g ∷ gs) s = bank_split_pass by_key gs (bank_split_step by_key g s)

-- PASS 3b: several goal transactions of a day make one bank transaction. An item's id is the
-- index of the group, by which its ids are found again; here the item carries the ids.
abbrev pub group_item : Group → Item (List Text)
group_item g = record { id = g.ids; amount = g.total }

abbrev pub is_candidate : Matching → BankTransaction → Group → Bool
is_candidate s b g = is_open s g && g.type == b.transaction_type && g.date == b.transaction_date

abbrev pub fund_split_match : BankTransaction → List (Item (List Text)) → MatchResult
fund_split_match b combination = record {
  bank_ids = b.id ∷ [];
  fund_ids = flatten (map item_id combination);
  match_type = split_fund_to_bank;
  confidence = 70;
  bank_total = b.total_amount;
  fund_total = sum_of amount_of combination;
}

abbrev pub fund_combination : List Group → Matching → BankTransaction → List (Item (List Text))
fund_combination groups s b =
    find_combination_sum (map group_item (filter_by (is_candidate s b) groups)) b.total_amount
      (tolerance b.total_amount)

unfoldable pub fund_split_step : List Group → BankTransaction → Matching → Matching
fund_split_step groups b s =
    if is_taken s b
    then s
    else if ltb 1 (length (fund_combination groups s b))
    then add_fund_ids (flatten (map item_id (fund_combination groups s b))) (
        add_bank_ids (b.id ∷ []) (push_result (fund_split_match b (fund_combination groups s b)) s))
    else s

unfoldable pub fund_split_pass : List Group → List BankTransaction → Matching → Matching
unfolding fund_split_step
fund_split_pass groups [] s = s
fund_split_pass groups (b ∷ bs) s = fund_split_pass groups bs (fund_split_step groups b s)

-- What a pass starts from: the bank transactions and the groups that are not matched yet.
abbrev pub unmatched_bank : Matching → List BankTransaction → List BankTransaction
unmatched_bank s bank_txns = filter_by (λ b. not (is_taken s b)) bank_txns

abbrev pub unmatched_groups : Matching → List Group → List Group
unmatched_groups s groups = filter_by (is_open s) groups

-- The state after each pass.
unfoldable pub after_manual : List BankTransaction → List Group → Matching
unfolding group_manual manual_pass
after_manual bank_txns groups = manual_pass groups (group_manual [] bank_txns) no_matches

unfoldable pub after_exact : List BankTransaction → List Group → Matching
unfolding after_manual exact_pass
after_exact bank_txns groups = exact_pass groups bank_txns (after_manual bank_txns groups)

unfoldable pub after_amount : List BankTransaction → List Group → Matching
unfolding after_exact amount_pass
after_amount bank_txns groups =
    let s = after_exact bank_txns groups in
    amount_pass (unmatched_groups s groups) (unmatched_bank s bank_txns) s

unfoldable pub after_bank_split : List BankTransaction → List Group → Matching
unfolding after_amount bank_split_pass
after_bank_split bank_txns groups =
    let s = after_amount bank_txns groups in
    bank_split_pass (group_by bank_key (unmatched_bank s bank_txns)) (unmatched_groups s groups) s

unfoldable pub run_passes : List BankTransaction → List Group → Matching
unfolding after_bank_split fund_split_pass
run_passes bank_txns groups =
    let s = after_bank_split bank_txns groups in
    fund_split_pass (unmatched_groups s groups) (unmatched_bank s bank_txns) s
