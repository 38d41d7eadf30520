-- ===== src/SmartMatcher/Passes.antt =====
-- The passes of `SmartMatcher.getGoalTransactions` over the bank transactions and the goal
-- transactions of a goal. The two sets of matched ids are only asked whether they hold an id, so a
-- set is the list of what was added.
use xeno_reconciliation.Prelude.{
  ℕ, ◌+◌, ◌-◌, Bool, not, ◌&&◌, Option, none, some, List, [], ◌∷◌, ◌++◌, map, flatten,
  if◌then◌else◌, ◌==◌, nat_eq, list_eq, option_eq, pair_eq, any, all, filter_by, includes, length,
  leb, ltb, drop,
}
use xeno_reconciliation.Prelude.Int.{ℤ, sum_of}
use xeno_reconciliation.Prelude.Text.{Text, codes, starts_with, split}
use xeno_reconciliation.Prelude.Dict.{Dict, push_group}
use xeno_reconciliation.Store.{type_eq, BankTransaction}
use xeno_reconciliation.SmartMatcher.Tolerance.{tolerance, is_within, date_window_days}
use xeno_reconciliation.SmartMatcher.Groups.{Group}

pub data MatchType : Type 0 where
  exact amount split_bank_to_fund split_fund_to_bank manual : MatchType

-- The confidence is counted in hundredths.
pub record MatchResult : Type 0 where
  pub bank_ids : List Text
  pub fund_ids : List Text
  pub match_type : MatchType
  pub confidence : ℕ
  pub bank_total : ℤ
  pub fund_total : ℤ

-- `matches`, `matchedBankIds` and `matchedFundIds`
pub record Matching : Type 0 where
  pub matches : List MatchResult
  pub bank_ids : List Text
  pub fund_ids : List Text

abbrev pub no_matches : Matching
no_matches = record { matches = []; bank_ids = []; fund_ids = [] }

-- `matches.push(m)`
abbrev pub push_result : MatchResult → Matching → Matching
push_result m s = record s { matches = s.matches ++ m ∷ [] }

-- `ids.forEach((id) => matchedBankIds.add(id))`
abbrev pub add_bank_ids : List Text → Matching → Matching
add_bank_ids ids s = record s { bank_ids = s.bank_ids ++ ids }

-- `ids.forEach((id) => matchedFundIds.add(id))`
abbrev pub add_fund_ids : List Text → Matching → Matching
add_fund_ids ids s = record s { fund_ids = s.fund_ids ++ ids }

-- `matchedBankIds.has(b.id)`
abbrev pub is_taken : Matching → BankTransaction → Bool
is_taken s b = includes s.bank_ids b.id

-- `!group.ids.some(id => matchedFundIds.has(id))`
abbrev pub is_open : Matching → Group → Bool
is_open s g = not (any (includes s.fund_ids) g.ids)

abbrev pub bank_id : BankTransaction → Text
bank_id b = b.id

abbrev pub bank_amount : BankTransaction → ℤ
bank_amount b = b.total_amount

abbrev pub group_ids : Group → List Text
group_ids g = g.ids

abbrev pub group_total : Group → ℤ
group_total g = g.total

-- `Math.abs` of the difference of two dates, in days
abbrev pub days_apart : ℕ → ℕ → ℕ
days_apart a b = (a - b) + (b - a)

-- PASS 0: the matches made by hand, `MANUAL:{timestamp}:{code},{code},...`.
abbrev pub manual_prefix : Text
manual_prefix = codes "MANUAL:"

unfoldable pub group_manual :
    Dict Text (List BankTransaction) → List BankTransaction → Dict Text (List BankTransaction)
group_manual groups [] = groups
group_manual groups (b ∷ bs) =
    group_manual
      (elim b.matched_goal_transaction_code [
        | none ↦ groups
        | some code ↦ if starts_with code manual_prefix then push_group code b groups else groups
      ])
      bs

-- The rest of the text behind its first colon.
unfoldable pub after_colon : Text → Option Text
after_colon [] = none
after_colon (c ∷ s) = let rest = after_colon s in if c == b':' then some s else rest

-- The open groups of the codes, code by code.
unfoldable pub groups_of_codes : Matching → List Group → List Text → List Group
groups_of_codes s groups [] = []
groups_of_codes s groups (code ∷ goal_codes) =
    filter_by (λ g. g.original_code == code && is_open s g) groups
    ++ groups_of_codes s groups goal_codes

-- The match of a manual group, where one of its goal transactions is found.
unfoldable pub match_manual : Matching → List Group → List BankTransaction → List Text → Matching
unfolding groups_of_codes
match_manual s groups bank_group goal_codes =
    let found = groups_of_codes s groups goal_codes in
    let all_fund_ids = flatten (map group_ids found) in
    let unmatched_banks = filter_by (λ b. not (is_taken s b)) bank_group in
    if ltb 0 (length all_fund_ids)
    then add_fund_ids all_fund_ids (
        add_bank_ids (map bank_id unmatched_banks) (
          push_result
            (record {
              bank_ids = map bank_id unmatched_banks;
              fund_ids = all_fund_ids;
              match_type = manual;
              confidence = 100;
              bank_total = sum_of bank_amount unmatched_banks;
              fund_total = sum_of group_total found;
            })
            s))
    else s

unfoldable pub manual_step : List Group → Text × List BankTransaction → Matching → Matching
unfolding after_colon match_manual
manual_step groups (match_code, bank_group) s =
    if all (is_taken s) bank_group then s else elim (after_colon (drop 7 match_code)) [
      | none ↦ s
      | some goal_codes ↦ match_manual s groups bank_group (split b',' goal_codes)
    ]

unfoldable pub manual_pass : List Group → Dict Text (List BankTransaction) → Matching → Matching
unfolding manual_step
manual_pass groups [] s = s
manual_pass groups (entry ∷ entries) s = manual_pass groups entries (manual_step groups entry s)

-- The match of one bank transaction with one goal transaction.
abbrev pub single_match : MatchType → ℕ → BankTransaction → Group → MatchResult
single_match type confidence b g = record {
  bank_ids = b.id ∷ [];
  fund_ids = g.ids;
  match_type = type;
  confidence = confidence;
  bank_total = b.total_amount;
  fund_total = g.total;
}

-- `Math.abs(bankAmount - group.total) <= Math.max(group.total * 1%, 1000)`
abbrev pub amounts_agree : BankTransaction → Group → Bool
amounts_agree b g = is_within (tolerance g.total) b.total_amount g.total

-- PASS 1: by transaction id. Only the first group with the id is compared.
abbrev pub has_same_id : BankTransaction → Group → Bool
has_same_id b g = g.transaction_id == some b.transaction_id && g.type == b.transaction_type

-- The first of the groups with the id.
abbrev pub match_exact : BankTransaction → List Group → Matching → Matching
match_exact b [] s = s
match_exact b (g ∷ _) s =
    if amounts_agree b g
    then add_fund_ids g.ids (add_bank_ids (b.id ∷ []) (push_result (single_match exact 100 b g) s))
    else s

unfoldable pub exact_step : List Group → BankTransaction → Matching → Matching
exact_step groups b s =
    if is_taken s b
    then s
    else match_exact b (filter_by (λ g. has_same_id b g && is_open s g) groups) s

unfoldable pub exact_pass : List Group → List BankTransaction → Matching → Matching
unfolding exact_step
exact_pass groups [] s = s
exact_pass groups (b ∷ bs) s = exact_pass groups bs (exact_step groups b s)

-- PASS 2: by amount, within the window of days. The first group that fits is taken.
abbrev pub fits_amount : Matching → BankTransaction → Group → Bool
fits_amount s b g =
    is_open s g
    && g.type == b.transaction_type
    && leb (days_apart b.transaction_date g.date) date_window_days
    && amounts_agree b g

-- `0.8 - (daysDiff / DATE_WINDOW_DAYS) * 0.3`, in hundredths
abbrev pub amount_confidence : BankTransaction → Group → ℕ
amount_confidence b g = 80 - days_apart b.transaction_date g.date

-- The first of the groups that fit.
abbrev pub match_amount : BankTransaction → List Group → Matching → Matching
match_amount b [] s = s
match_amount b (g ∷ _) s =
    add_fund_ids g.ids
      (add_bank_ids (b.id ∷ []) (push_result (single_match amount (amount_confidence b g) b g) s))

unfoldable pub amount_step : List Group → BankTransaction → Matching → Matching
amount_step groups b s =
    if is_taken s b then s else match_amount b (filter_by (fits_amount s b) groups) s

unfoldable pub amount_pass : List Group → List BankTransaction → Matching → Matching
unfolding amount_step
amount_pass groups [] s = s
amount_pass groups (b ∷ bs) s = amount_pass groups bs (amount_step groups b s)
