-- ===== src/Links/Tests.antt =====
-- Tests and examples for the manual matches and reversal pairs of
-- src/services/reconciliation/SmartMatcher.ts.
use xeno_reconciliation.Links.Operations.{not_found}
use xeno_reconciliation.Store.{ReviewTag}
use xeno_reconciliation.Links.Reviews.{review_goal_transaction, review_bank_transaction}
use xeno_reconciliation.Links.Pairs.{get_reversal_pair_info, set_pair}
use xeno_reconciliation.Prelude.Text.{includes_text}
use xeno_reconciliation.SmartMatcher.Tolerance.{is_within}
use xeno_reconciliation.Prelude.Int.{◌+ℤ◌}
use mathlib.Core.List.{Memᴰ}
use xeno_reconciliation.Prelude.{
  ◌≡◌, ◌≤◌, refl, true, none, some, List, [], ◌∷◌, nat_eq, list_eq, drop,
}
use xeno_reconciliation.Prelude.Int.{ℤ, pos, negsuc, abs, ◌-ℤ◌, sum_of}
use xeno_reconciliation.Prelude.Text.{Text, codes, split, starts_with}
use xeno_reconciliation.Store.{
  deposit, withdrawal, pending, BankTransaction, FundTransaction, TransactionType, update_many,
}
use xeno_reconciliation.SmartMatcher.Passes.{after_colon, manual_prefix}
use xeno_reconciliation.Links.Operations.{
  find_unique, Table, ok, err, ManualMatch, manual_code, create_manual_match, remove_manual_match,
}
use xeno_reconciliation.Links.Pairs.{check_pair, link_reversal, unlink_reversal, clear_review}
use xeno_reconciliation.Links.Candidates.{
  find_reversal_candidates, find_reversal_candidates-check_pair,
}
use xeno_reconciliation.Links.Removal.{unlinked_by, is_unlinked, remove_manual_match-unlinked_by}
use xeno_reconciliation.Links.Reversal.{in_pair, unlink_reversal-link_reversal}
use xeno_reconciliation.Links.Manual.{
  split-manual_code, goal_total_in, create_manual_match-withdrawals,
}

abbrev bank_row : Text → TransactionType → ℤ → BankTransaction
bank_row id type total = record {
  id = id;
  goal_number = codes "G1";
  transaction_id = codes "T1";
  transaction_type = type;
  transaction_date = 100;
  total_amount = total;
  reconciliation_status = pending;
  matched_goal_transaction_code = none;
  matched_at = none;
  match_score = none;
  review_tag = none;
  review_notes = none;
  reviewed_by = none;
  reviewed_at = none;
  updated_at = 0;
}

abbrev table : Table
table =
    bank_row (codes "a1") deposit (pos 500)
    ∷ bank_row (codes "b2") withdrawal (negsuc 499)
    ∷ record (bank_row (codes "c3") deposit (pos 500)) {
      matched_goal_transaction_code = some (codes "MANUAL:7:C12");
    }
    ∷ []

abbrev fund_table : List FundTransaction
fund_table =
    record {
      id = codes "f1";
      goal_transaction_code = codes "C1";
      transaction_id = none;
      transaction_type = withdrawal;
      transaction_date = 100;
      amount = negsuc 399;
      fund_code = codes "XUMMF";
      review_tag = none;
      review_notes = none;
      reviewed_by = none;
      reviewed_at = none;
    }
    ∷ []

remove_manual_match-unlinked_by_example :
    remove_manual_match 9 [] (codes "C1" ∷ []) table
    ≡ unlinked_by 9 (is_unlinked [] (codes "C1" ∷ [])) table
remove_manual_match-unlinked_by_example =
    remove_manual_match-unlinked_by 9 [] (codes "C1" ∷ []) table

unlink_reversal-link_reversal_example :
    unlink_reversal 9 (codes "a1") (link_reversal 8 (codes "a1") (codes "b2") (codes "me") table).1
    ≡ (ok 2, update_many (in_pair (codes "a1") (codes "b2")) (clear_review 9) table)
unfolding link_reversal ◌+ℤ◌
unlink_reversal-link_reversal_example =
    unlink_reversal-link_reversal 8 9 b'b' (codes "2") (codes "a1") (codes "me") table refl refl

split-manual_code_example :
    (starts_with (manual_code 8 (codes "C1" ∷ codes "C2" ∷ [])) manual_prefix ≡ true)
    × ((rest : Text) × (after_colon (drop 7 (manual_code 8 (codes "C1" ∷ codes "C2" ∷ [])))
          ≡ some rest)
        × (split b',' rest ≡ codes "C1" ∷ codes "C2" ∷ []))
split-manual_code_example = split-manual_code 8 (codes "C1") (codes "C2" ∷ []) (refl, (refl, tt))

abbrev made : ManualMatch
made = record {
  matched_bank_count = 1;
  matched_goal_count = 1;
  bank_total = negsuc 499;
  goal_total = negsuc 399;
}

create_manual_match-withdrawals_example :
    abs (negsuc 499 -ℤ goal_total_in (codes "C1" ∷ []) fund_table) ≤ 100
unfolding create_manual_match sum_of ◌+ℤ◌ is_within ◌-ℤ◌
create_manual_match-withdrawals_example =
    create_manual_match-withdrawals 9 (codes "b2" ∷ []) (codes "C1" ∷ []) fund_table table made 499
      refl refl

find_reversal_candidates-check_pair_example :
    check_pair
      (find_unique (codes "a1") table)
      (some (bank_row (codes "b2") withdrawal (negsuc 499)))
    ≡ none
unfolding find_reversal_candidates ◌-ℤ◌ includes_text
find_reversal_candidates-check_pair_example =
    find_reversal_candidates-check_pair (codes "a1") none table
      (bank_row (codes "b2") withdrawal (negsuc 499) ∷ [])
      (bank_row (codes "b2") withdrawal (negsuc 499)) refl (Memᴰ.head refl)

-- The info of one row of a linked pair is about the other row.
pair_info :
    (get_reversal_pair_info
      (codes "a1")
      (link_reversal 8 (codes "a1") (codes "b2") (codes "me") table).1).paired_transaction
    ≡ some (set_pair 8 (codes "a1") (codes "me") (bank_row (codes "b2") withdrawal (negsuc 499)))
unfolding get_reversal_pair_info link_reversal ◌+ℤ◌
pair_info = refl

reviewed_goal :
    (review_goal_transaction 9
      (codes "C1")
      ReviewTag.no_action_needed
      none
      (codes "me")
      fund_table).0
    ≡ 1
unfolding review_goal_transaction
reviewed_goal = refl

reviewed_no_row :
    review_bank_transaction 9 (codes "zz") ReviewTag.no_action_needed none (codes "me") table
    ≡ (err not_found, table)
unfolding review_bank_transaction
reviewed_no_row = refl
