-- ===== src/SmartMatcher/Groups.antt =====
-- The goal transactions of `SmartMatcher.getGoalTransactions`: the fund transactions of a goal by
-- code and type.
use xeno_reconciliation.Prelude.{
  ℕ, ◌==◌, nat_eq, list_eq, Option, none, some, List, [], ◌∷◌, ◌++◌, if◌then◌else◌,
}
use xeno_reconciliation.Prelude.Int.{ℤ, pos, ◌+ℤ◌}
use xeno_reconciliation.Prelude.Text.{Text, codes}
use xeno_reconciliation.Prelude.Dict.{Dict, ensure, modify}
use xeno_reconciliation.Store.{TransactionType, type_name, ReviewTag, FundTransaction}

-- An entry of `goalTxnByCode`.
pub record Group : Type 0 where
  pub original_code : Text
  pub ids : List Text
  pub total : ℤ
  pub date : ℕ
  pub transaction_id : Option Text
  pub type : TransactionType
  pub xummf : ℤ
  pub xubf : ℤ
  pub xudef : ℤ
  pub xuref : ℤ
  pub review_tag : Option ReviewTag
  pub review_notes : Option Text
  pub reviewed_by : Option Text
  pub reviewed_at : Option ℕ

-- `${ft.goalTransactionCode}|${ft.transactionType}`
unfoldable pub composite_key : Text → TransactionType → Text
composite_key code type = code ++ b'|' ∷ type_name type

-- The entry that is set when a key is met first.
abbrev pub new_group : FundTransaction → Group
new_group ft = record {
  original_code = ft.goal_transaction_code;
  ids = [];
  total = pos 0;
  date = ft.transaction_date;
  transaction_id = ft.transaction_id;
  type = ft.transaction_type;
  xummf = pos 0;
  xubf = pos 0;
  xudef = pos 0;
  xuref = pos 0;
  review_tag = ft.review_tag;
  review_notes = ft.review_notes;
  reviewed_by = ft.reviewed_by;
  reviewed_at = ft.reviewed_at;
}

-- `if (!a && b) a = b`, where a missing value and the empty text count as false
abbrev pub fill {ℓ} : {A : Type ℓ} → Option A → Option A → Option A
fill none b = b
fill (some a) b = some a

abbrev pub fill_text : Option Text → Option Text → Option Text
fill_text (some (c ∷ s)) b = some (c ∷ s)
fill_text a none = a
fill_text a (some []) = a
fill_text a (some (c ∷ s)) = some (c ∷ s)

-- The chain of tests on the fund code: the amounts of the four funds after one more.
abbrev pub add_amount : FundTransaction → Group → Group
add_amount ft g =
    if ft.fund_code == codes "XUMMF"
    then record g { xummf = g.xummf +ℤ ft.amount }
    else if ft.fund_code == codes "XUBF"
    then record g { xubf = g.xubf +ℤ ft.amount }
    else if ft.fund_code == codes "XUDEF"
    then record g { xudef = g.xudef +ℤ ft.amount }
    else if ft.fund_code == codes "XUREF"
    then record g { xuref = g.xuref +ℤ ft.amount }
    else g

-- What the loop's body does to the group of a fund transaction.
unfoldable pub add_to_group : FundTransaction → Group → Group
add_to_group ft group =
    let g =
      add_amount ft
        (record group { ids = group.ids ++ ft.id ∷ []; total = group.total +ℤ ft.amount }) in
    record g {
      review_tag = fill g.review_tag ft.review_tag;
      review_notes = fill_text g.review_notes ft.review_notes;
      reviewed_by = fill_text g.reviewed_by ft.reviewed_by;
      reviewed_at = fill g.reviewed_at ft.reviewed_at;
    }

abbrev pub key_of : FundTransaction → Text
key_of ft = composite_key ft.goal_transaction_code ft.transaction_type

unfoldable pub put_fund_transaction : FundTransaction → Dict Text Group → Dict Text Group
unfolding add_to_group
put_fund_transaction ft groups =
    modify (key_of ft) (add_to_group ft) (ensure (key_of ft) (new_group ft) groups)

unfoldable pub group_fund_transactions : Dict Text Group → List FundTransaction → Dict Text Group
unfolding put_fund_transaction
group_fund_transactions groups [] = groups
group_fund_transactions groups (ft ∷ fts) =
    group_fund_transactions (put_fund_transaction ft groups) fts
