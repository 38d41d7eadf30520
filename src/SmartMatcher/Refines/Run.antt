-- ===== src/SmartMatcher/Refines/Run.antt =====
-- The whole matching refines the relation of steps.
use xeno_reconciliation.Prelude.{List, not, All-mono, All-filter_by, All-listed}
use mathlib.Core.List.{Memᴰ}
use xeno_reconciliation.Store.{BankTransaction}
use xeno_reconciliation.SmartMatcher.Groups.{Group}
use xeno_reconciliation.SmartMatcher.Passes.{Matching, no_matches, is_taken, is_open}
use xeno_reconciliation.SmartMatcher.Splits.{
  after_manual, after_exact, after_amount, after_bank_split, run_passes, unmatched_bank,
  unmatched_groups,
}
use xeno_reconciliation.SmartMatcher.Steps.{Steps, Steps-trans}
use xeno_reconciliation.SmartMatcher.Refines.{
  AreBanks, AreGroups, exact_pass-Steps, amount_pass-Steps,
}
use xeno_reconciliation.SmartMatcher.Refines.Manual.{manual-Steps}
use xeno_reconciliation.SmartMatcher.Refines.Splits.{bank_split_pass-Steps, fund_split_pass-Steps}

module _ (banks : List BankTransaction) (groups : List Group) where
  unmatched_bank-AreBanks : (s : Matching) → AreBanks banks groups (unmatched_bank s banks)
  unmatched_bank-AreBanks s =
      All-mono (λ b h. h.0) _
        (All-filter_by (λ b. Memᴰ b banks) (λ b. not (is_taken s b)) banks (All-listed banks))

  unmatched_groups-AreGroups : (s : Matching) → AreGroups banks groups (unmatched_groups s groups)
  unmatched_groups-AreGroups s =
      All-mono (λ g h. h.0) _
        (All-filter_by (λ g. Memᴰ g groups) (is_open s) groups (All-listed groups))

  after_manual-Steps : Steps banks groups no_matches (after_manual banks groups)
  unfolding after_manual
  after_manual-Steps =
      manual-Steps banks groups groups banks no_matches (All-listed groups) (All-listed banks)

  after_exact-Steps : Steps banks groups no_matches (after_exact banks groups)
  unfolding after_exact
  after_exact-Steps = Steps-trans banks groups after_manual-Steps (
      exact_pass-Steps banks groups groups banks (after_manual banks groups) (All-listed groups)
        (All-listed banks))

  after_amount-Steps : Steps banks groups no_matches (after_amount banks groups)
  unfolding after_amount
  after_amount-Steps =
      let s = after_exact banks groups in
      Steps-trans banks groups after_exact-Steps (
        amount_pass-Steps banks groups (unmatched_groups s groups) (unmatched_bank s banks) s
          (unmatched_groups-AreGroups s) (unmatched_bank-AreBanks s))

  after_bank_split-Steps : Steps banks groups no_matches (after_bank_split banks groups)
  unfolding after_bank_split
  after_bank_split-Steps =
      let s = after_amount banks groups in
      Steps-trans banks groups after_amount-Steps (
        bank_split_pass-Steps banks groups (unmatched_bank s banks) (unmatched_groups s groups) s
          (unmatched_bank-AreBanks s) (unmatched_groups-AreGroups s))

-- The five passes, from no match on, take only steps that the relation allows: each match they
-- add is of bank transactions and goal transactions of the goal that are not matched yet and that
-- satisfy what the kind of match asks for.
pub run_passes-Steps :
    (banks : List BankTransaction) (groups : List Group)
    → Steps banks groups no_matches (run_passes banks groups)
unfolding run_passes
run_passes-Steps banks groups =
    let s = after_bank_split banks groups in
    Steps-trans banks groups (after_bank_split-Steps banks groups) (
      fund_split_pass-Steps banks groups (unmatched_groups s groups) (unmatched_bank s banks) s
        (unmatched_groups-AreGroups banks groups s) (unmatched_bank-AreBanks banks groups s))
