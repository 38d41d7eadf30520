-- ===== src/SmartMatcher/Sound.antt =====
-- The amounts of the matches that the passes make by themselves.
use xeno_reconciliation.Prelude.{List, [], ◌∷◌, All, All-append}
use xeno_reconciliation.Prelude.Int.{ℤ}
use xeno_reconciliation.Store.{BankTransaction}
use xeno_reconciliation.SmartMatcher.Groups.{Group}
use xeno_reconciliation.SmartMatcher.Passes.{
  MatchType, exact, amount, split_bank_to_fund, split_fund_to_bank, manual, MatchResult, Matching,
}
use xeno_reconciliation.SmartMatcher.Splits.{run_passes}
use xeno_reconciliation.SmartMatcher.Steps.{
  Steps, rest, add, Allowed, by_hand, by_id, by_amount, by_bank_split, by_fund_split, Agree,
}
use xeno_reconciliation.SmartMatcher.Refines.Run.{run_passes-Steps}

-- The totals of a match lie within the tolerance of the side that is one transaction. A match
-- made by hand may have any totals here.
abbrev pub IsBalanced : MatchType → ℤ → ℤ → Type 0
IsBalanced manual bank fund = Unit
IsBalanced split_fund_to_bank bank fund = Agree bank fund bank
IsBalanced exact bank fund = Agree fund bank fund
IsBalanced amount bank fund = Agree fund bank fund
IsBalanced split_bank_to_fund bank fund = Agree fund bank fund

Allowed-IsBalanced :
    (banks : List BankTransaction) (groups : List Group) (s : Matching) {m : MatchResult}
    → Allowed banks groups s m
    → IsBalanced m.match_type m.bank_total m.fund_total
Allowed-IsBalanced banks groups s (by_hand code rest_of_code bs gs e hb hg) = tt
Allowed-IsBalanced banks groups s (by_id b g hb hg e t a) = a
Allowed-IsBalanced banks groups s (by_amount b g hb hg t d a) = a
Allowed-IsBalanced banks groups s (by_bank_split g items hg hb n a) = a
Allowed-IsBalanced banks groups s (by_fund_split b items hb hg n a) = a

abbrev AllBalanced : Matching → Type 0
AllBalanced s = All (λ m. IsBalanced m.match_type m.bank_total m.fund_total) s.matches

Steps-AllBalanced :
    (banks : List BankTransaction) (groups : List Group) {s t : Matching}
    → Steps banks groups s t
    → AllBalanced s
    → AllBalanced t
Steps-AllBalanced banks groups rest h = h
Steps-AllBalanced banks groups (add {t} {m} r a) h =
    All-append _ t.matches (m ∷ []) (Steps-AllBalanced banks groups r h)
      (Allowed-IsBalanced banks groups t a, tt)

-- In every match that was not made by hand the totals of the two sides differ by no more than the
-- tolerance: 1% of the fund total, or of the bank total where several goal transactions make one
-- bank transaction, and at least 1000 shillings.
pub run_passes-IsBalanced :
    (banks : List BankTransaction) (groups : List Group)
    → All (λ m. IsBalanced m.match_type m.bank_total m.fund_total) (run_passes banks groups).matches
run_passes-IsBalanced banks groups =
    Steps-AllBalanced banks groups (run_passes-Steps banks groups) tt
