-- ===== src/SmartMatcher/Tests.antt =====
-- Tests and examples for the matching of src/services/reconciliation/SmartMatcher.ts.
use xeno_reconciliation.Prelude.{any, includes}
use xeno_reconciliation.SmartMatcher.Combination.Sorting.{IsDescending}
use xeno_reconciliation.Prelude.{Perm}
use xeno_reconciliation.SmartMatcher.Groups.{composite_key}
use xeno_reconciliation.Prelude.Int.{◌-ℤ◌}
use xeno_reconciliation.Prelude.Int.{◌+ℤ◌}
use xeno_reconciliation.Prelude.Dict.{group_by}
use mathlib.Core.List.{Perm, Memᴰ}
use xeno_reconciliation.Prelude.{
  ◌≤◌, ◌≡◌, refl, none, true, false, List, [], ◌∷◌, ◌≢◌, arith, All, list_eq, nat_eq,
}
use xeno_reconciliation.Prelude.Int.{ℤ, pos, sum_of}
use xeno_reconciliation.Prelude.Text.{Text, codes}
use xeno_reconciliation.Prelude.Dict.{values}
use xeno_reconciliation.Store.{deposit, pending, BankTransaction, FundTransaction}
use xeno_reconciliation.SmartMatcher.Tolerance.{tolerance, is_within}
use xeno_reconciliation.SmartMatcher.Combination.{
  Item, amount_of, sort_descending, find_combination_sum,
}
use xeno_reconciliation.SmartMatcher.Combination.Laws.{
  find_combination_sum_sound, find_combination_sum_complete,
}
use xeno_reconciliation.SmartMatcher.Combination.Picked.{Picked, done, keep, skip}
use xeno_reconciliation.SmartMatcher.Groups.{Group, group_fund_transactions}
use xeno_reconciliation.SmartMatcher.Passes.{no_matches, split_bank_to_fund}
use xeno_reconciliation.SmartMatcher.Splits.{after_amount, run_passes}
use xeno_reconciliation.SmartMatcher.Steps.{Steps}
use xeno_reconciliation.SmartMatcher.Refines.Run.{run_passes-Steps}
use xeno_reconciliation.SmartMatcher.Once.{
  claims, bank_ids_of, fund_ids_of, run_passes_once, run_passes_held,
}
use xeno_reconciliation.SmartMatcher.Sound.{IsBalanced, run_passes-IsBalanced}
use xeno_reconciliation.SmartMatcher.Maximal.{after_amount-maximal}

abbrev bank_row : Text → Text → ℤ → BankTransaction
bank_row id transaction_id total = record {
  id = id;
  goal_number = codes "G1";
  transaction_id = transaction_id;
  transaction_type = deposit;
  transaction_date = 100;
  total_amount = total;
  reconciliation_status = pending;
  matched_goal_transaction_code = none;
  matched_at = none;
  match_score = none;
  review_tag = none;
  review_notes = none;
  reviewed_by = none;
  reviewed_at = none;
  updated_at = 0;
}

abbrev fund_row : Text → Text → Text → ℤ → FundTransaction
fund_row id code fund total = record {
  id = id;
  goal_transaction_code = code;
  transaction_id = none;
  transaction_type = deposit;
  transaction_date = 100;
  amount = total;
  fund_code = fund;
  review_tag = none;
  review_notes = none;
  reviewed_by = none;
  reviewed_at = none;
}

-- Two bank transactions of a day make the goal transaction of 80,000; a third fits no group.
abbrev bank_rows : List BankTransaction
bank_rows =
    bank_row (codes "b1") (codes "T1") (pos 3_000_000)
    ∷ bank_row (codes "b2") (codes "T2") (pos 5_000_000)
    ∷ bank_row (codes "b3") (codes "T3") (pos 90_000_000)
    ∷ []

abbrev fund_rows : List FundTransaction
fund_rows =
    fund_row (codes "f1") (codes "C1") (codes "XUMMF") (pos 6_000_000)
    ∷ fund_row (codes "f2") (codes "C1") (codes "XUBF") (pos 2_000_000)
    ∷ fund_row (codes "f3") (codes "C2") (codes "XUBF") (pos 50_000_000)
    ∷ []

abbrev goal_groups : List Group
goal_groups = values (group_fund_transactions [] fund_rows)

run_passes_test :
    (run_passes bank_rows goal_groups).matches
    ≡ record {
      bank_ids = codes "b2" ∷ codes "b1" ∷ [];
      fund_ids = codes "f1" ∷ codes "f2" ∷ [];
      match_type = split_bank_to_fund;
      confidence = 70;
      bank_total = pos 8_000_000;
      fund_total = pos 8_000_000;
    }
      ∷ []
unfolding run_passes group_fund_transactions composite_key is_within ◌-ℤ◌ ◌+ℤ◌ tolerance
    find_combination_sum group_by sum_of
run_passes_test = refl

run_passes-Steps_example : Steps bank_rows goal_groups no_matches (run_passes bank_rows goal_groups)
run_passes-Steps_example = run_passes-Steps bank_rows goal_groups

run_passes_once_example :
    (claims bank_ids_of (codes "b1") (run_passes bank_rows goal_groups).matches ≤ 1)
    × (claims fund_ids_of (codes "b1") (run_passes bank_rows goal_groups).matches ≤ 1)
run_passes_once_example = run_passes_once bank_rows goal_groups (codes "b1")

run_passes-IsBalanced_example :
    All
      (λ m. IsBalanced m.match_type m.bank_total m.fund_total)
      (run_passes bank_rows goal_groups).matches
run_passes-IsBalanced_example = run_passes-IsBalanced bank_rows goal_groups

abbrev late_bank : BankTransaction
late_bank = bank_row (codes "b3") (codes "T3") (pos 90_000_000)

abbrev open_group : Group
open_group = record {
  original_code = codes "C2";
  ids = codes "f3" ∷ [];
  total = pos 50_000_000;
  date = 100;
  transaction_id = none;
  type = deposit;
  xummf = pos 0;
  xubf = pos 50_000_000;
  xudef = pos 0;
  xuref = pos 0;
  review_tag = none;
  review_notes = none;
  reviewed_by = none;
  reviewed_at = none;
}

after_amount-maximal_example :
    is_within (tolerance (pos 50_000_000)) (pos 90_000_000) (pos 50_000_000) ≡ false
unfolding after_amount group_fund_transactions is_within ◌-ℤ◌ tolerance
after_amount-maximal_example =
    after_amount-maximal bank_rows (open_group ∷ []) late_bank open_group
      (Memᴰ.tail (Memᴰ.tail (Memᴰ.head refl))) (Memᴰ.head refl) refl refl refl (omega arith)

abbrev item : ℤ → Item Text
item total = record { id = codes "i"; amount = total }

-- The greedy choice of 7 leaves no way to 10, and the subsets find 6 + 4.
abbrev some_items : List (Item Text)
some_items = item (pos 4_000) ∷ item (pos 7_000) ∷ item (pos 6_000) ∷ []

find_combination_sum_test :
    find_combination_sum some_items (pos 10_000) 0 ≡ item (pos 6_000) ∷ item (pos 4_000) ∷ []
unfolding find_combination_sum is_within ◌+ℤ◌ ◌-ℤ◌ sum_of
find_combination_sum_test = refl

find_combination_sum_sound_example :
    Perm (sort_descending some_items) some_items
    × Picked (find_combination_sum some_items (pos 10_000) 0) (sort_descending some_items)
    × (is_within 0 (sum_of amount_of (find_combination_sum some_items (pos 10_000) 0)) (pos 10_000)
        ≡ true)
find_combination_sum_sound_example =
    find_combination_sum_sound some_items (pos 10_000) 0
      (λ empty. absurd (clash (rw find_combination_sum_test at empty)))
  where
    clash : item (pos 6_000) ∷ item (pos 4_000) ∷ [] ≡ [] → ⊥
    clash e = cc

find_combination_sum_complete_example :
    Perm (sort_descending some_items) some_items
    × IsDescending (sort_descending some_items)
    × (find_combination_sum some_items (pos 10_000) 0 ≢ [])
unfolding sort_descending is_within ◌-ℤ◌ sum_of ◌+ℤ◌
find_combination_sum_complete_example =
    find_combination_sum_complete some_items (pos 10_000) 0
      (item (pos 6_000) ∷ item (pos 4_000) ∷ []) (skip (keep (keep done))) (omega arith) refl

run_passes_held_example :
    let s = run_passes bank_rows goal_groups in
    (includes s.bank_ids (codes "b1") ≡ any (λ m. includes m.bank_ids (codes "b1")) s.matches)
    × (includes s.fund_ids (codes "b1") ≡ any (λ m. includes m.fund_ids (codes "b1")) s.matches)
run_passes_held_example = run_passes_held bank_rows goal_groups (codes "b1")
