-- ===== src/Links/Operations.antt =====
-- `createManualMatch` and `removeManualMatch` of src/services/reconciliation/SmartMatcher.ts. An
-- operation takes the time of the call and the tables, and answers with the tables after it; what it
-- throws is an `err`, and leaves them alone.
use xeno_reconciliation.Prelude.{
  ℕ, ◌+◌, Bool, true, false, not, ◌&&◌, Option, none, some, List, [], ◌∷◌, ◌++◌, if◌then◌else◌,
  ◌==◌, nat_eq, list_eq, option_eq, includes, filter_by, length, nat_beq, max,
}
use xeno_reconciliation.Prelude.Int.{ℤ, pos, ◌+ℤ◌, pos_part, sum_of}
use xeno_reconciliation.Prelude.Text.{Text, codes, digits, join, starts_with, includes_text}
use xeno_reconciliation.Prelude.Dict.{Dict, modify, ensure, values}
use xeno_reconciliation.Store.{
  type_eq, ReconciliationStatus, BankTransaction, FundTransaction, update_many,
}
use xeno_reconciliation.SmartMatcher.Tolerance.{is_within}

pub data LinkError : Type 0 where
  bank_transactions_not_found goal_transactions_not_found totals_do_not_match transactions_not_found
        different_goals same_types amounts_do_not_cancel not_found not_a_reversal :
      LinkError

pub data Outcome {ℓ} (A : Type ℓ) : Type ℓ where
  ok : A → Outcome A
  err : LinkError → Outcome A

abbrev pub Table : Type 0
Table = List BankTransaction

-- `findUnique({ where: { id } })`
unfoldable pub find_unique : Text → Table → Option BankTransaction
find_unique id [] = none
find_unique id (b ∷ table) = let rest = find_unique id table in if b.id == id then some b else rest

abbrev pub has_id : Text → BankTransaction → Bool
has_id id b = b.id == id

abbrev pub is_one_of : List Text → BankTransaction → Bool
is_one_of ids b = includes ids b.id

-- How many rows an `updateMany` changes.
abbrev pub count_rows : (BankTransaction → Bool) → Table → ℕ
count_rows condition table = length (filter_by condition table)

-- `createManualMatch`: the sum of the fund transactions of each code that is not empty
unfoldable pub add_goal_amount : Dict Text ℤ → List FundTransaction → Dict Text ℤ
add_goal_amount totals [] = totals
add_goal_amount totals (ft ∷ fts) =
    add_goal_amount
      (elim ft.goal_transaction_code [
        | [] ↦ totals
        | c ∷ s ↦ modify (c ∷ s) (λ total. total +ℤ ft.amount) (ensure (c ∷ s) (pos 0) totals)
      ])
      fts

abbrev pub bank_total_of : BankTransaction → ℤ
bank_total_of b = b.total_amount

abbrev pub itself : ℤ → ℤ
itself total = total

-- `Math.max(bankTotal * 0.01, 1)`, in hundredths of a hundredth
unfoldable pub manual_tolerance : ℤ → ℕ
manual_tolerance bank_total = max (pos_part bank_total) 10_000

-- `MANUAL:${Date.now()}:${goalTransactionCodes.join(',')}`
unfoldable pub manual_code : ℕ → List Text → Text
manual_code now goal_codes = codes "MANUAL:" ++ (digits now ++ b':' ∷ join b',' goal_codes)

abbrev pub set_manual : ℕ → List Text → BankTransaction → BankTransaction
set_manual now goal_codes b = record b {
  matched_goal_transaction_code = some (manual_code now goal_codes);
  reconciliation_status = ReconciliationStatus.matched;
  matched_at = some now;
  match_score = some 100;
  updated_at = now;
}

pub record ManualMatch : Type 0 where
  pub matched_bank_count : ℕ
  pub matched_goal_count : ℕ
  pub bank_total : ℤ
  pub goal_total : ℤ

unfoldable pub create_manual_match :
    ℕ → List Text → List Text → List FundTransaction → Table → Outcome ManualMatch × Table
unfolding add_goal_amount manual_tolerance manual_code update_many
create_manual_match now bank_ids goal_codes fund_table table =
    let bank_txns = filter_by (is_one_of bank_ids) table in
    let fund_txns = filter_by (λ ft. includes goal_codes ft.goal_transaction_code) fund_table in
    let goal_totals = values (add_goal_amount [] fund_txns) in
    let bank_total = sum_of bank_total_of bank_txns in
    let goal_total = sum_of itself goal_totals in
    if not (nat_beq (length bank_txns) (length bank_ids))
    then (err bank_transactions_not_found, table)
    else if not (nat_beq (length goal_totals) (length goal_codes))
    then (err goal_transactions_not_found, table)
    else if not (is_within (manual_tolerance bank_total) bank_total goal_total)
    then (err totals_do_not_match, table)
    else (
      ok (record {
        matched_bank_count = length bank_txns;
        matched_goal_count = length goal_codes;
        bank_total = bank_total;
        goal_total = goal_total;
      }),
      update_many (is_one_of bank_ids) (set_manual now goal_codes) table,
    )

-- What `removeManualMatch` writes.
abbrev pub reset_match : ℕ → BankTransaction → BankTransaction
reset_match now b = record b {
  matched_goal_transaction_code = none;
  reconciliation_status = ReconciliationStatus.pending;
  matched_at = none;
  match_score = none;
  updated_at = now;
}

-- The stored code is one of the codes.
abbrev pub is_coded : List Text → BankTransaction → Bool
is_coded goal_codes b = elim b.matched_goal_transaction_code [
  | none ↦ false
  | some code ↦ includes goal_codes code
]

-- The stored code starts with the prefix and contains the text.
abbrev pub is_manual_with : Text → BankTransaction → Bool
is_manual_with goal_code b = elim b.matched_goal_transaction_code [
  | none ↦ false
  | some code ↦ includes_text code goal_code && starts_with code (codes "MANUAL:")
]

-- The loop over the codes, with the number of rows so far.
unfoldable pub unmatch_containing : ℕ → List Text → ℕ × Table → ℕ × Table
unfolding update_many
unmatch_containing now [] (unmatched, table) = (unmatched, table)
unmatch_containing now (goal_code ∷ goal_codes) (unmatched, table) =
    unmatch_containing now goal_codes (
      unmatched + count_rows (is_manual_with goal_code) table,
      update_many (is_manual_with goal_code) (reset_match now) table,
    )

abbrev pub is_listed : List Text → Bool
is_listed [] = false
is_listed (id ∷ ids) = true

-- An `updateMany` under a test, with how many rows it changes.
abbrev pub update_if {ℓ} : {A : Type ℓ} → Bool → (A → Bool) → (A → A) → List A → ℕ × List A
update_if true condition change rows =
    (length (filter_by condition rows), update_many condition change rows)
update_if false condition change rows = (0, rows)

unfoldable pub unmatch_ids : ℕ → List Text → Table → ℕ × Table
unfolding update_many
unmatch_ids now bank_ids table =
    update_if (is_listed bank_ids) (is_one_of bank_ids) (reset_match now) table

unfoldable pub unmatch_codes : ℕ → List Text → ℕ × Table → ℕ × Table
unfolding update_many unmatch_containing
unmatch_codes now goal_codes (unmatched, table) =
    if is_listed goal_codes
    then unmatch_containing now goal_codes (
      unmatched + count_rows (is_coded goal_codes) table,
      update_many (is_coded goal_codes) (reset_match now) table,
    )
    else (unmatched, table)

unfoldable pub remove_manual_match : ℕ → List Text → List Text → Table → ℕ × Table
unfolding unmatch_ids unmatch_codes
remove_manual_match now bank_ids goal_codes table =
    unmatch_codes now goal_codes (unmatch_ids now bank_ids table)
