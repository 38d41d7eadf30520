-- ===== src/Codes/Grouping.antt =====
-- `groupByCode` of src/services/fund-upload/calculators/GoalTransactionCodeGenerator.ts as a
-- partition of the transactions.
use mathlib.Core.List.{Perm}
use xeno_reconciliation.Prelude.{◌≡◌, List, ◌==◌, filter_by, All, list_eq, nat_eq}
use xeno_reconciliation.Prelude.Text.{Text}
use xeno_reconciliation.Prelude.Dict.{keys, Distinct, grouped, group_of}
use xeno_reconciliation.Prelude.Dict.Groups.{
  grouped-group_by, group_of-group_by, Distinct-group_by, IsGroup, All-group_by,
}
use xeno_reconciliation.Codes.{group_by_code}

-- `groupByCode` partitions the transactions by code: the groups together hold each transaction as
-- often as the list does, no code has two groups, a group is not empty and holds transactions of
-- its code only, and the group of a code holds the transactions of that code in their order.
pub group_by_code_partitions {ℓ} :
    {A : Type ℓ} (code_of : A → Text) (transactions : List A)
    → Perm (grouped (group_by_code code_of transactions)) transactions
      × Distinct (keys (group_by_code code_of transactions))
      × All (IsGroup code_of) (group_by_code code_of transactions)
      × ((code : Text)
          → group_of code (group_by_code code_of transactions)
            ≡ filter_by (λ t. code_of t == code) transactions)
unfolding group_by_code
group_by_code_partitions code_of transactions = (
  grouped-group_by code_of transactions,
  Distinct-group_by code_of transactions,
  All-group_by code_of transactions,
  λ code. group_of-group_by code_of code transactions,
)
