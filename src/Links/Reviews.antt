-- ===== src/Links/Reviews.antt =====
-- `reviewBankTransaction`, `reviewGoalTransaction` and `bulkReview` of
-- src/services/reconciliation/SmartMatcher.ts, as the operations of Links/Operations.
use xeno_reconciliation.Prelude.{
  ℕ, Bool, Option, none, some, List, ◌==◌, nat_eq, list_eq, option_eq, includes, filter_by, length,
}
use xeno_reconciliation.Prelude.Text.{Text}
use xeno_reconciliation.Store.{type_eq, ReviewTag, BankTransaction, FundTransaction, update_many}
use xeno_reconciliation.Links.Operations.{
  has_id, find_unique, not_found, Outcome, ok, err, Table, is_listed, is_one_of, update_if,
}

-- The column `updatedAt` is set by every update.
abbrev pub set_review : ℕ → ReviewTag → Option Text → Text → BankTransaction → BankTransaction
set_review now tag notes by b = record b {
  review_tag = some tag;
  review_notes = notes;
  reviewed_at = some now;
  reviewed_by = some by;
  updated_at = now;
}

abbrev pub set_fund_review : ℕ → ReviewTag → Option Text → Text → FundTransaction → FundTransaction
set_fund_review now tag notes by ft = record ft {
  review_tag = some tag;
  review_notes = notes;
  reviewed_at = some now;
  reviewed_by = some by;
}

-- `reviewBankTransaction`: an update of a row that is not there throws.
unfoldable pub review_bank_transaction :
    ℕ → Text → ReviewTag → Option Text → Text → Table → Outcome BankTransaction × Table
unfolding find_unique update_many
review_bank_transaction now id tag notes by table = elim (find_unique id table) [
  | none ↦ (err not_found, table)
  | some b ↦ (
    ok (set_review now tag notes by b),
    update_many (has_id id) (set_review now tag notes by) table,
  )
]

-- `reviewGoalTransaction`: the number of rows, and the table.
unfoldable pub review_goal_transaction :
    ℕ → Text → ReviewTag → Option Text → Text → List FundTransaction → ℕ × List FundTransaction
unfolding update_many
review_goal_transaction now goal_code tag notes by fund_table =
    let condition : FundTransaction → Bool = λ ft. ft.goal_transaction_code == goal_code in
    (
      length (filter_by condition fund_table),
      update_many condition (set_fund_review now tag notes by) fund_table,
    )

abbrev pub has_code_of : List Text → FundTransaction → Bool
has_code_of goal_codes ft = includes goal_codes ft.goal_transaction_code

-- `bulkReview`: the two counts, and the two tables.
unfoldable pub bulk_review :
    ℕ
    → List Text
    → List Text
    → ReviewTag
    → Option Text
    → Text
    → Table × List FundTransaction
    → (ℕ × ℕ) × (Table × List FundTransaction)
unfolding update_many
bulk_review now bank_ids goal_codes tag notes by (table, fund_table) =
    let (bank_updated, table') =
      update_if (is_listed bank_ids) (is_one_of bank_ids) (set_review now tag notes by) table in
    let (goal_updated, fund_table') =
      update_if (is_listed goal_codes) (has_code_of goal_codes) (set_fund_review now tag notes by)
        fund_table in
    ((bank_updated, goal_updated), (table', fund_table'))
