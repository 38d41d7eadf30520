-- ===== src/SmartMatcher/Steps.antt =====
-- What the matching may do, without the order in which it does it: a relation of steps, each of
-- which adds one match of transactions that are not matched yet.
use mathlib.Core.List.{Memᴰ}
use xeno_reconciliation.Prelude.{
  ◌≤◌, ◌<◌, ◌≡◌, true, false, some, List, map, flatten, nat_eq, list_eq, includes, length, drop,
  All,
}
use xeno_reconciliation.Prelude.Int.{ℤ, sum_of}
use xeno_reconciliation.Prelude.Text.{Text, starts_with, split}
use xeno_reconciliation.Store.{BankTransaction}
use xeno_reconciliation.SmartMatcher.Tolerance.{tolerance, is_within, date_window_days}
use xeno_reconciliation.SmartMatcher.Combination.{Item, amount_of}
use xeno_reconciliation.SmartMatcher.Groups.{Group}
use xeno_reconciliation.SmartMatcher.Passes.{
  exact, amount, manual, MatchResult, Matching, push_result, add_bank_ids, add_fund_ids, is_taken,
  is_open, bank_id, bank_amount, group_ids, group_total, days_apart, single_match,
  amount_confidence, manual_prefix, after_colon,
}
use xeno_reconciliation.SmartMatcher.Splits.{
  bank_item, bank_split_match, group_item, fund_split_match,
}

-- The tolerance of the first amount holds the distance of the two.
abbrev pub Agree : ℤ → ℤ → ℤ → Type 0
Agree base a b = is_within (tolerance base) a b ≡ true

module _ (banks : List BankTransaction) (groups : List Group) (s : Matching) where
  -- A bank transaction, or a group, of the goal that is not matched yet.
  pub record IsFreeBank (b : BankTransaction) : Type 0 where
    pub listed : Memᴰ b banks
    pub untaken : is_taken s b ≡ false

  pub record IsFreeGroup (g : Group) : Type 0 where
    pub listed : Memᴰ g groups
    pub free : is_open s g ≡ true

  -- A bank transaction that a manual match code marks, and a group that the code names.
  pub record IsMarked (code : Text) (b : BankTransaction) : Type 0 where
    pub bank : IsFreeBank b
    pub code_is : b.matched_goal_transaction_code ≡ some code
    pub prefix : starts_with code manual_prefix ≡ true

  pub record IsNamed (goal_codes : List Text) (g : Group) : Type 0 where
    pub group : IsFreeGroup g
    pub named : includes goal_codes g.original_code ≡ true

  -- An item that stands for a free bank transaction of the group's day and type, or for a free
  -- group of the bank transaction's day and type.
  pub record IsBankItem (g : Group) (i : Item Text) : Type 0 where
    pub b : BankTransaction
    pub bank : IsFreeBank b
    pub item : i ≡ bank_item b
    pub date : b.transaction_date ≡ g.date
    pub type : b.transaction_type ≡ g.type

  pub record IsGroupItem (b : BankTransaction) (i : Item (List Text)) : Type 0 where
    pub g : Group
    pub group : IsFreeGroup g
    pub item : i ≡ group_item g
    pub date : g.date ≡ b.transaction_date
    pub type : g.type ≡ b.transaction_type

  -- The match of all that a manual code marks with all that it names.
  abbrev pub manual_match : List BankTransaction → List Group → MatchResult
  manual_match bs gs = record {
    bank_ids = map bank_id bs;
    fund_ids = flatten (map group_ids gs);
    match_type = manual;
    confidence = 100;
    bank_total = sum_of bank_amount bs;
    fund_total = sum_of group_total gs;
  }

  -- The matches that may be added.
  pub data Allowed : MatchResult → Type 0 where
    by_hand :
        (code rest : Text) (bs : List BankTransaction) (gs : List Group)
        → after_colon (drop 7 code) ≡ some rest
        → All (IsMarked code) bs
        → All (IsNamed (split b',' rest)) gs
        → Allowed (manual_match bs gs)
    by_id :
        (b : BankTransaction) (g : Group)
        → IsFreeBank b
        → IsFreeGroup g
        → g.transaction_id ≡ some b.transaction_id
        → g.type ≡ b.transaction_type
        → Agree g.total b.total_amount g.total
        → Allowed (single_match exact 100 b g)
    by_amount :
        (b : BankTransaction) (g : Group)
        → IsFreeBank b
        → IsFreeGroup g
        → g.type ≡ b.transaction_type
        → days_apart b.transaction_date g.date ≤ date_window_days
        → Agree g.total b.total_amount g.total
        → Allowed (single_match amount (amount_confidence b g) b g)
    by_bank_split :
        (g : Group) (items : List (Item Text))
        → IsFreeGroup g
        → All (IsBankItem g) items
        → 1 < length items
        → Agree g.total (sum_of amount_of items) g.total
        → Allowed (bank_split_match items g)
    by_fund_split :
        (b : BankTransaction) (items : List (Item (List Text)))
        → IsFreeBank b
        → All (IsGroupItem b) items
        → 1 < length items
        → Agree b.total_amount (sum_of amount_of items) b.total_amount
        → Allowed (fund_split_match b items)

-- The match is listed, and its ids are taken.
abbrev pub push_match : MatchResult → Matching → Matching
push_match m s = add_fund_ids m.fund_ids (add_bank_ids m.bank_ids (push_result m s))

-- Any number of steps.
pub data Steps (banks : List BankTransaction) (groups : List Group)
    : Matching → Matching → Type 0 where
  rest : {s : Matching} → Steps banks groups s s
  add :
      {s t : Matching} {m : MatchResult}
      → Steps banks groups s t
      → Allowed banks groups t m
      → Steps banks groups s (push_match m t)

pub Steps-trans :
    (banks : List BankTransaction) (groups : List Group) {s t u : Matching}
    → Steps banks groups s t
    → Steps banks groups t u
    → Steps banks groups s u
Steps-trans banks groups r rest = r
Steps-trans banks groups r (add q a) = add (Steps-trans banks groups r q) a
