-- ===== src/Links/Pairs.antt =====
-- `linkReversal` and `unlinkReversal` of src/services/reconciliation/SmartMatcher.ts, as the operations
-- of Links/Operations.
use xeno_reconciliation.Prelude.{
  ℕ, Bool, true, false, not, ◌&&◌, ◌||◌, Option, none, some, [], ◌∷◌, ◌++◌, if◌then◌else◌, ◌==◌,
  nat_eq, list_eq, option_eq, leb, ltb,
}
use xeno_reconciliation.Prelude.Int.{◌+ℤ◌, abs}
use xeno_reconciliation.Prelude.Text.{Text, codes}
use xeno_reconciliation.Store.{type_eq, ReviewTag, BankTransaction, update_many}
use xeno_reconciliation.Links.Operations.{
  transactions_not_found, LinkError, Outcome, Table, amounts_do_not_cancel, different_goals, err,
  find_unique, has_id, not_a_reversal, not_found, ok, same_types,
}

-- `linkReversal`
abbrev pub pair_notes : Text → Text
pair_notes id = codes "Reversal pair with: " ++ id

abbrev pub set_pair : ℕ → Text → Text → BankTransaction → BankTransaction
set_pair now paired by b = record b {
  review_tag = some ReviewTag.reversal_netted;
  review_notes = some (pair_notes paired);
  reviewed_by = some by;
  reviewed_at = some now;
  updated_at = now;
}

-- What the two rows must be to be linked.
unfoldable pub check_pair : Option BankTransaction → Option BankTransaction → Option LinkError
check_pair (some txn1) (some txn2) =
    if not (txn1.goal_number == txn2.goal_number)
    then some different_goals
    else if txn1.transaction_type == txn2.transaction_type
    then some same_types
    else if ltb 1 (abs (txn1.total_amount +ℤ txn2.total_amount))
    then some amounts_do_not_cancel
    else none
check_pair none txn2 = some transactions_not_found
check_pair (some txn1) none = some transactions_not_found

unfoldable pub link_reversal : ℕ → Text → Text → Text → Table → Outcome Bool × Table
unfolding find_unique check_pair update_many
link_reversal now id1 id2 by table =
    elim (check_pair (find_unique id1 table) (find_unique id2 table)) [
      | some e ↦ (err e, table)
      | none ↦ (
        ok true,
        update_many (has_id id2) (set_pair now id1 by)
            (update_many (has_id id1) (set_pair now id2 by) table),
      )
    ]

-- `[a-f0-9-]`
abbrev pub is_id_char : ℕ → Bool
is_id_char c = (leb b'a' c && leb c b'f') || (leb b'0' c && leb c b'9') || c == b'-'

unfoldable pub id_run : Text → Text
id_run [] = []
id_run (c ∷ s) = let rest = id_run s in if is_id_char c then c ∷ rest else []

-- The id at the head of the text, where the pattern matches there.
unfoldable pub pair_here : Text → Text → Option Text
unfolding id_run
pair_here [] s = elim (id_run s) [ [] ↦ none | c ∷ r ↦ some (c ∷ r) ]
pair_here (p ∷ ps) [] = none
pair_here (p ∷ ps) (c ∷ s) = let rest = pair_here ps s in if c == p then rest else none

-- `notes.match(/Reversal pair with: ([a-f0-9-]+)/)?.[1]`
unfoldable pub paired_id : Text → Option Text
unfolding pair_here
paired_id [] = none
paired_id (c ∷ s) =
    let later = paired_id s in
    elim (pair_here (codes "Reversal pair with: ") (c ∷ s)) [ none ↦ later | some id ↦ some id ]

abbrev pub clear_review : ℕ → BankTransaction → BankTransaction
clear_review now b = record b {
  review_tag = none;
  review_notes = none;
  reviewed_by = none;
  reviewed_at = none;
  updated_at = now;
}

abbrev pub is_netted : BankTransaction → Bool
is_netted b = elim b.review_tag [
  | none ↦ false
  | some tag ↦ elim tag [ ReviewTag.reversal_netted ↦ true | _ ↦ false ]
]

-- The id in the notes of a row.
abbrev pub pair_of : BankTransaction → Option Text
pair_of b = elim b.review_notes [ none ↦ none | some notes ↦ paired_id notes ]

-- The pair of the unlinked row, where it is found and still tagged.
unfoldable pub unlink_pair : ℕ → Option Text → Table → ℕ × Table
unfolding find_unique update_many
unlink_pair now none table = (1, table)
unlink_pair now (some id) table = elim (find_unique id table) [
  | none ↦ (1, table)
  | some paired ↦
      if is_netted paired then (2, update_many (has_id id) (clear_review now) table) else (1, table)
]

unfoldable pub unlink_found : ℕ → Text → Option BankTransaction → Table → Outcome ℕ × Table
unfolding paired_id unlink_pair update_many
unlink_found now id none table = (err not_found, table)
unlink_found now id (some txn) table =
    if not (is_netted txn)
    then (err not_a_reversal, table)
    else let (count, table') =
        unlink_pair now (pair_of txn) (update_many (has_id id) (clear_review now) table) in
      (ok count, table')

unfoldable pub unlink_reversal : ℕ → Text → Table → Outcome ℕ × Table
unfolding find_unique unlink_found
unlink_reversal now id table = unlink_found now id (find_unique id table) table

-- What `getReversalPairInfo` answers; of the paired row the columns that it selects are left out.
pub record ReversalPairInfo : Type 0 where
  pub is_reversal_pair : Bool
  pub paired_transaction : Option BankTransaction

unfoldable pub get_reversal_pair_info : Text → Table → ReversalPairInfo
unfolding find_unique paired_id
get_reversal_pair_info id table = elim (find_unique id table) [
  | none ↦ record { is_reversal_pair = false; paired_transaction = none }
  | some txn ↦
      if not (is_netted txn)
      then record { is_reversal_pair = false; paired_transaction = none }
      else record {
        is_reversal_pair = true;
        paired_transaction = elim (pair_of txn) [
          | none ↦ none
          | some paired ↦ find_unique paired table
        ];
      }
]
