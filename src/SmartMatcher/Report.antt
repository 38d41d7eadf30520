-- ===== src/SmartMatcher/Report.antt =====
-- What `SmartMatcher.getGoalTransactions` reads, answers and writes: the rows that its queries
-- select, the result, and the matches that it stores.
use xeno_reconciliation.Prelude.{
  ℕ, Bool, true, false, not, Option, none, some, List, [], ◌∷◌, ◌++◌, map, if◌then◌else◌, nat_eq,
  list_eq, any, filter_by, includes,
}
use xeno_reconciliation.Prelude.Text.{Text, codes, join}
use xeno_reconciliation.Prelude.Dict.{Dict, keys, values}
use xeno_reconciliation.Store.{type_eq, BankTransaction, FundTransaction, update_many}
use xeno_reconciliation.SmartMatcher.Groups.{Group, composite_key, group_fund_transactions}
use xeno_reconciliation.SmartMatcher.Passes.{
  MatchType, exact, amount, split_bank_to_fund, split_fund_to_bank, manual, MatchResult, is_taken,
}
use xeno_reconciliation.SmartMatcher.Splits.{run_passes}

abbrev pub has_group_ids : MatchResult → Group → Bool
has_group_ids m g = any (includes m.fund_ids) g.ids

-- The group stands in some match.
abbrev pub is_matched : List MatchResult → Group → Bool
is_matched matches g = any (λ m. has_group_ids m g) matches

abbrev pub group_key : Group → Text
group_key g = composite_key g.original_code g.type

-- `matchedGoalTxnKeys`: the keys of the entries whose group stands in some match.
unfoldable pub matched_keys : List MatchResult → Dict Text Group → List Text
matched_keys matches entries = keys (filter_by (λ e. is_matched matches e.1) entries)

abbrev pub is_manual : MatchType → Bool
is_manual manual = true
is_manual exact = false
is_manual amount = false
is_manual split_bank_to_fund = false
is_manual split_fund_to_bank = false

abbrev pub match_type_name : MatchType → Text
match_type_name exact = codes "EXACT"
match_type_name amount = codes "AMOUNT"
match_type_name split_bank_to_fund = codes "SPLIT_BANK_TO_FUND"
match_type_name split_fund_to_bank = codes "SPLIT_FUND_TO_BANK"
match_type_name manual = codes "MANUAL"

abbrev pub original_code_of : Group → Text
original_code_of g = g.original_code

-- The code that is stored for a match, from the codes of its groups.
unfoldable pub match_code : MatchType → List Text → Option Text
match_code type [] = none
match_code type (code ∷ []) = some code
match_code type (code ∷ next ∷ more) =
    some (match_type_name type ++ b':' ∷ join b',' (code ∷ next ∷ more))

-- The stored fields of a matched bank transaction; `Math.round(confidence * 100)` is the
-- confidence in hundredths.
abbrev pub set_match : ℕ → Text → MatchResult → BankTransaction → BankTransaction
set_match now code m b = record b {
  matched_goal_transaction_code = some code;
  matched_at = some now;
  match_score = some m.confidence;
  updated_at = now;
}

unfoldable pub persist_match :
    ℕ → List Group → List BankTransaction → MatchResult → List BankTransaction
unfolding match_code update_many
persist_match now groups table m =
    if is_manual m.match_type
    then table
    else elim (match_code m.match_type
        (map original_code_of (filter_by (has_group_ids m) groups))) [
          | none ↦ table
          | some code ↦ update_many (λ b. includes m.bank_ids b.id) (set_match now code m) table
        ]

unfoldable pub persist_matches :
    ℕ → List Group → List BankTransaction → List MatchResult → List BankTransaction
unfolding persist_match
persist_matches now groups table [] = table
persist_matches now groups table (m ∷ ms) =
    persist_matches now groups (persist_match now groups table m) ms

pub record GoalTransactions : Type 0 where
  pub bank_transactions : List BankTransaction
  pub goal_transactions : List Group
  pub matches : List MatchResult
  pub unmatched_bank : List Text
  pub unmatched_goal_txn : List Text

-- The call, from the rows that its two queries answer and whether the goal was found, with the
-- table of bank transactions before and after it.
unfoldable pub get_goal_transactions :
    ℕ
    → Bool
    → List BankTransaction
    → List FundTransaction
    → List BankTransaction
    → GoalTransactions × List BankTransaction
unfolding group_fund_transactions run_passes matched_keys persist_matches
get_goal_transactions now goal_found bank_txns fund_txns table =
    let entries = group_fund_transactions [] fund_txns in
    let groups = values entries in
    let s = run_passes bank_txns groups in
    let found : GoalTransactions = record {
      bank_transactions = bank_txns;
      goal_transactions = groups;
      matches = s.matches;
      unmatched_bank = map (λ b. b.id) (filter_by (λ b. not (is_taken s b)) bank_txns);
      unmatched_goal_txn =
          map original_code_of
            (filter_by (λ g. not (includes (matched_keys s.matches entries) (group_key g))) groups);
    } in
    let missing : GoalTransactions = record {
      bank_transactions = bank_txns;
      goal_transactions = [];
      matches = [];
      unmatched_bank = map (λ b. b.id) bank_txns;
      unmatched_goal_txn = [];
    } in
    if goal_found then (found, persist_matches now groups table s.matches) else (missing, table)
