-- ===== src/Upload/Detector.antt =====
-- `EntityDetector`, src/services/fund-upload/entity-management/EntityDetector.ts.
pub mod Laws
use xeno_reconciliation.Prelude.{
  ℕ, ◌+◌, ◌*◌, ◌/◌, Bool, true, false, not, ◌||◌, Option, none, some, List, [], ◌∷◌, ◌++◌, map,
  if◌then◌else◌, ◌==◌, nat_eq, list_eq, pair_eq, filter_by, includes, length, ltb,
}
use xeno_reconciliation.Prelude.Int.{ℤ, pos, negsuc, ◌+ℤ◌, ◌-ℤ◌, ◌*ₙ◌, ltb_ℤ, abs, int_eq, sum_of}
use xeno_reconciliation.Prelude.Text.{Text}
use xeno_reconciliation.Prelude.Dict.{Dict, keys, lookup, insert, ensure}
use xeno_reconciliation.Codes.{group_by_code}
use xeno_reconciliation.Validation.Types.{ParsedFundTransaction}
use xeno_reconciliation.Validation.GoalGroups.{
  client_of, account_of, goal_of, fund_of, set_from, goal_code, amount_of,
}
use xeno_reconciliation.Upload.Records.{
  Distribution, NewClientInfo, NewAccountInfo, NewGoalInfo, NewEntitiesReport, Client, Account,
  Goal, Database,
}

abbrev pub name_of : Client → Text
name_of c = c.client_name

abbrev pub number_of : Account → Text
number_of a = a.account_number

abbrev pub goal_number : Goal → Text
goal_number g = g.goal_number

-- The names among `names` that no row has: `findMany({ where: { name: { in: names } } })`, then the
-- filter by the set of what was found.
unfoldable pub new_names {ℓ} : {A : Type ℓ} → (A → Text) → List A → List Text → List Text
new_names name rows names =
    let existing = map name (filter_by (λ row. includes names (name row)) rows) in
    filter_by (λ n. not (includes existing n)) names

-- The transactions whose key is `k`.
abbrev pub with_key : (ParsedFundTransaction → Text) → Text → ParsedFundTransaction → Bool
with_key key k t = key t == k

abbrev pub transactions_of :
    (ParsedFundTransaction → Text) → Text → List ParsedFundTransaction → List ParsedFundTransaction
transactions_of key k ts = filter_by (with_key key k) ts

abbrev pub client_info : List ParsedFundTransaction → Text → NewClientInfo
client_info ts name =
    let own = transactions_of client_of name ts in
    record {
      client_name = name;
      transaction_count = length own;
      total_amount = sum_of amount_of own;
    }

unfoldable pub detect_new_clients : List Client → List ParsedFundTransaction → List NewClientInfo
unfolding set_from new_names
detect_new_clients clients ts =
    map (client_info ts) (new_names name_of clients (set_from [] (map client_of ts)))

-- `if (!m.has(key)) m.set(key, ...)`: the first transaction with each key, whose data is kept.
unfoldable pub first_from :
    (ParsedFundTransaction → Text)
    → Dict Text ParsedFundTransaction
    → List ParsedFundTransaction
    → Dict Text ParsedFundTransaction
first_from key d [] = d
first_from key d (t ∷ ts) = first_from key (ensure (key t) t d) ts

-- `m.get(key)!` of the keys, each of which is there.
abbrev pub found_at :
    {A : Type 0}
    → (Text → ParsedFundTransaction → A)
    → Dict Text ParsedFundTransaction
    → List Text
    → List A
found_at info d [] = []
found_at info d (k ∷ ks) =
    let rest = found_at info d ks in elim (lookup k d) [ none ↦ rest | some t ↦ info k t ∷ rest ]

abbrev pub account_info : List ParsedFundTransaction → Text → ParsedFundTransaction → NewAccountInfo
account_info ts number first =
    let own = transactions_of account_of number ts in
    record {
      account_number = number;
      account_type = first.account_type;
      account_category = first.account_category;
      sponsor_code = first.sponsor_code;
      client_name = first.client_name;
      transaction_count = length own;
      total_amount = sum_of amount_of own;
    }

unfoldable pub detect_new_accounts : List Account → List ParsedFundTransaction → List NewAccountInfo
unfolding first_from new_names
detect_new_accounts accounts ts =
    let account_map = first_from account_of [] ts in
    found_at (account_info ts) account_map (new_names number_of accounts (keys account_map))

-- The quotient rounded down, of a divisor that is not 0.
abbrev pub floor_div : ℤ → ℕ → ℤ
floor_div (pos n) d = pos (n / d)
floor_div (negsuc n) d = negsuc (n / d)

-- `Math.round(a / b)`: the nearest number, halves up
abbrev pub round_ratio : ℤ → ℤ → ℤ
round_ratio a b =
    if ltb_ℤ b (pos 0)
    then floor_div ((pos 0 -ℤ 2 *ₙ a) +ℤ pos (abs b)) (2 * abs b)
    else floor_div (2 *ₙ a +ℤ b) (2 * abs b)

-- The percentages of one goal transaction.
unfoldable pub distribution_from : ℤ → Distribution → List ParsedFundTransaction → Distribution
distribution_from total d [] = d
distribution_from total d (t ∷ ts) =
    distribution_from total (insert t.fund_code (round_ratio (10_000 *ₙ amount_of t) total) d) ts

abbrev pub count_at : Distribution → Dict Distribution ℕ → ℕ
count_at d counts = elim (lookup d counts) [ none ↦ 0 | some n ↦ n ]

-- The signature of a distribution is its JSON text, which is the same for the same entries.
unfoldable pub count_distributions :
    Dict Distribution ℕ → Dict Text (List ParsedFundTransaction) → Dict Distribution ℕ
unfolding distribution_from
count_distributions counts [] = counts
count_distributions counts ((code, ts) ∷ groups) =
    let total = sum_of amount_of ts in
    let d = distribution_from total [] ts in
    count_distributions (if total == pos 0 then counts else insert d (count_at d counts + 1) counts)
      groups

-- The first of those that occur most often.
unfoldable pub most_common : ℕ → Option Distribution → Dict Distribution ℕ → Option Distribution
most_common max_count best [] = best
most_common max_count best ((d, count) ∷ counts) =
    let better = most_common count (some d) counts in
    let rest = most_common max_count best counts in if ltb max_count count then better else rest

abbrev pub equal_distribution : ℕ → List Text → Distribution
equal_distribution size [] = []
equal_distribution size (code ∷ fund_codes) =
    (code, pos ((20_000 + size) / (2 * size))) ∷ equal_distribution size fund_codes

unfoldable pub calculate_fund_distribution : List ParsedFundTransaction → Distribution
unfolding group_by_code count_distributions most_common set_from
calculate_fund_distribution ts =
    let fund_codes = set_from [] (map fund_of ts) in
    elim (most_common 0 none (count_distributions [] (group_by_code goal_code ts))) [
      | none ↦ equal_distribution (length fund_codes) fund_codes
      | some d ↦ d
    ]

abbrev pub goal_info : List ParsedFundTransaction → Text → ParsedFundTransaction → NewGoalInfo
goal_info ts number first =
    let own = transactions_of goal_of number ts in
    record {
      goal_number = number;
      goal_title = first.goal_title;
      account_number = first.account_number;
      client_name = first.client_name;
      transaction_count = length own;
      total_amount = sum_of amount_of own;
      fund_distribution = calculate_fund_distribution own;
    }

unfoldable pub detect_new_goals : List Goal → List ParsedFundTransaction → List NewGoalInfo
unfolding first_from new_names
detect_new_goals goals ts =
    let goal_map = first_from goal_of [] ts in
    found_at (goal_info ts) goal_map (new_names goal_number goals (keys goal_map))

unfoldable pub detect_new_entities : Database → List ParsedFundTransaction → NewEntitiesReport
unfolding detect_new_clients detect_new_accounts detect_new_goals
detect_new_entities db ts = record {
  clients = detect_new_clients db.clients ts;
  accounts = detect_new_accounts db.accounts ts;
  goals = detect_new_goals db.goals ts;
}

unfoldable pub has_new_entities : NewEntitiesReport → Bool
has_new_entities report =
    ltb 0 (length report.clients) || ltb 0 (length report.accounts) || ltb 0 (length report.goals)
