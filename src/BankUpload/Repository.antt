-- ===== src/BankUpload/Repository.antt =====
-- `BankTransactionRepository`, src/services/bank-upload/database/BankTransactionRepository.ts.
pub mod Saves
use xeno_reconciliation.Prelude.{all, includes}
use xeno_reconciliation.Prelude.{
  ℕ, zero, suc, ◌+◌, Bool, true, false, not, ◌&&◌, ◌||◌, Option, none, some, List, [], ◌∷◌, ◌++◌,
  if◌then◌else◌, ◌==◌, nat_eq, list_eq, any, filter_by, length, take, drop,
}
use xeno_reconciliation.Prelude.Int.{ℤ, pos, ◌+ℤ◌, sum_of}
use xeno_reconciliation.Prelude.Text.{Text, codes}
use xeno_reconciliation.Validation.Fields.{is_missing}
use xeno_reconciliation.Upload.Repository.{transaction_types, amount_limit, fits_number}
use xeno_reconciliation.Upload.Records.{
  Account, Goal, BankGoalTransaction, missing_account, missing_goal, invalid_value, Result,
  returned, thrown, Database,
}
use xeno_reconciliation.Upload.Creator.{find_account}
use xeno_reconciliation.BankUpload.Types.{ParsedBankTransaction}

-- `goal.findUnique({ where: { goalNumber } })`
unfoldable pub find_goal : Text → List Goal → Option Goal
find_goal number [] = none
find_goal number (g ∷ goals) =
    let rest = find_goal number goals in if g.goal_number == number then some g else rest

abbrev pub bank_row : Text → Account → Goal → ParsedBankTransaction → BankGoalTransaction
bank_row batch_id account goal t = record {
  client_id = account.client_id;
  account_id = account.id;
  goal_id = goal.id;
  upload_batch_id = batch_id;
  transaction_date = t.transaction_date;
  transaction_type = t.transaction_type;
  transaction_id = t.transaction_id;
  first_name = t.first_name;
  last_name = t.last_name;
  goal_title = t.goal_title;
  goal_number = t.goal_number;
  total_amount = t.total_amount;
  xummf_percentage = t.xummf_percentage;
  xubf_percentage = t.xubf_percentage;
  xudef_percentage = t.xudef_percentage;
  xuref_percentage = t.xuref_percentage;
  xummf_amount = t.xummf_amount;
  xubf_amount = t.xubf_amount;
  xudef_amount = t.xudef_amount;
  xuref_amount = t.xuref_amount;
  row_number = t.row_number;
}

-- The row of one transaction: first its account is looked up, then its goal.
abbrev pub row_of :
    Text → ParsedBankTransaction → Option Account → Option Goal → Result BankGoalTransaction
row_of batch_id t none goal = thrown (missing_account t.row_number)
row_of batch_id t (some account) none = thrown (missing_goal t.row_number)
row_of batch_id t (some account) (some goal) = returned (bank_row batch_id account goal t)

abbrev pub one_more :
    Result BankGoalTransaction
    → Result (List BankGoalTransaction)
    → Result (List BankGoalTransaction)
one_more (thrown e) rest = thrown e
one_more (returned row) (thrown e) = thrown e
one_more (returned row) (returned rows) = returned (row ∷ rows)

-- The rows of a slice.
unfoldable pub prepare_rows :
    Database → Text → List ParsedBankTransaction → Result (List BankGoalTransaction)
unfolding find_account find_goal
prepare_rows db batch_id [] = returned []
prepare_rows db batch_id (t ∷ ts) =
    one_more
      (row_of batch_id t (find_account t.account_number db.accounts)
        (find_goal t.goal_number db.goals))
      (prepare_rows db batch_id ts)

-- The unique key of the table.
abbrev pub same_bank_row : BankGoalTransaction → BankGoalTransaction → Bool
same_bank_row s t = s.upload_batch_id == t.upload_batch_id && s.row_number == t.row_number

-- `createMany({ data, skipDuplicates: true })`
unfoldable pub create_bank_rows :
    List BankGoalTransaction → List BankGoalTransaction → List BankGoalTransaction
create_bank_rows table [] = table
create_bank_rows table (row ∷ rows) =
    let kept = create_bank_rows (table ++ row ∷ []) rows in
    let skipped = create_bank_rows table rows in
    if any (same_bank_row row) table then skipped else kept

-- Decimal(5, 4), whose values are rounded to ten-thousandths, in hundred-millionths.
abbrev pub percentage_limit : ℕ
percentage_limit = 999_995_000

-- Whether the columns take the values of the transaction: a number or a date that is missing, too
-- large a number, and a text that is no type of the enumeration are refused by `new Prisma.Decimal`
-- or by the columns. The hundredth of a missing percentage is no number.
unfoldable pub fits_bank_columns : ParsedBankTransaction → Bool
fits_bank_columns t =
    includes transaction_types t.transaction_type
    && not (is_missing t.transaction_date)
    && fits_number amount_limit t.total_amount
    && fits_number percentage_limit t.xummf_percentage
    && fits_number percentage_limit t.xubf_percentage
    && fits_number percentage_limit t.xudef_percentage
    && fits_number percentage_limit t.xuref_percentage
    && fits_number amount_limit t.xummf_amount
    && fits_number amount_limit t.xubf_amount
    && fits_number amount_limit t.xudef_amount
    && fits_number amount_limit t.xuref_amount

abbrev pub bank_batch_size : ℕ
bank_batch_size = 500

-- The loop over the slices, on fuel for the number of slices.
unfoldable pub save_bank_slices :
    ℕ
    → ℕ
    → Database
    → Text
    → List BankGoalTransaction
    → ℕ
    → List ParsedBankTransaction
    → Result (List BankGoalTransaction × ℕ)
unfolding prepare_rows fits_bank_columns create_bank_rows
save_bank_slices fuel size db batch_id table count [] = returned (table, count)
save_bank_slices zero size db batch_id table count (t ∷ ts) = returned (table, count)
save_bank_slices (suc fuel) size db batch_id table count (t ∷ ts) =
    elim (prepare_rows db batch_id (take size (t ∷ ts))) [
      | thrown e ↦ thrown e
      | returned rows ↦
          let saved = create_bank_rows table rows in
          let rest =
            save_bank_slices fuel size db batch_id saved (count + length rows)
              (drop size (t ∷ ts)) in
          if all fits_bank_columns (take size (t ∷ ts)) then rest else thrown invalid_value
    ]

-- `saveTransactions`: the tables after it and the count, or what it throws, with the tables as they
-- were.
unfoldable pub save_bank_transactions :
    Text → List ParsedBankTransaction → Database → Result (Database × ℕ)
unfolding save_bank_slices
save_bank_transactions batch_id ts db =
    elim (save_bank_slices (length ts) bank_batch_size db batch_id db.bank_goal_transactions 0 ts) [
      | thrown e ↦ thrown e
      | returned saved ↦ returned (record db { bank_goal_transactions = saved.0 }, saved.1)
    ]
