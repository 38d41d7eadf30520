-- ===== src/Upload/Repository.antt =====
-- `FundTransactionRepository`, src/services/fund-upload/database/FundTransactionRepository.ts.
pub mod Resolve
pub mod Slices
pub mod Known
use xeno_reconciliation.Prelude.{true, false}
use xeno_reconciliation.Prelude.{
  ℕ, zero, suc, ◌+◌, Bool, not, ◌&&◌, ◌||◌, Option, none, some, List, [], ◌∷◌, ◌++◌, map,
  if◌then◌else◌, ◌==◌, nat_eq, list_eq, any, all, ltb, filter_by, includes, length, take, drop,
}
use xeno_reconciliation.Prelude.Text.{Text, codes}
use xeno_reconciliation.Prelude.Int.{ℤ, abs}
use xeno_reconciliation.Validation.Fields.{is_missing}
use xeno_reconciliation.Prelude.Dict.{Dict, lookup, insert}
use xeno_reconciliation.Validation.Types.{ParsedFundTransaction}
use xeno_reconciliation.Validation.Batch.{InvalidTransaction}
use xeno_reconciliation.Validation.GoalGroups.{set_from}
use xeno_reconciliation.Upload.Records.{
  StoredTransaction, InvalidFundTransaction, missing_foreign_key, invalid_value, Result, returned,
  thrown, Database, Client, Account, Goal, Fund,
}
use xeno_reconciliation.Validation.GoalGroups.{client_of, account_of, goal_of, fund_of}
use xeno_reconciliation.Upload.Detector.{name_of, number_of, goal_number}

-- `new Map(rows.map((row) => [name, id]))` of the rows whose name is among `names`
unfoldable pub map_from {ℓ} :
    {A : Type ℓ} → (A → Text) → (A → Text) → Dict Text Text → List A → Dict Text Text
map_from name id d [] = d
map_from name id d (row ∷ rows) = map_from name id (insert (name row) (id row) d) rows

unfoldable pub ids_of {ℓ} :
    {A : Type ℓ} → (A → Text) → (A → Text) → List A → List Text → Dict Text Text
unfolding map_from set_from
ids_of name id rows names =
    map_from name id [] (filter_by (λ row. includes (set_from [] names) (name row)) rows)

-- The four maps of `resolveForeignKeys`.
pub record References : Type 0 where
  pub client_map : Dict Text Text
  pub account_map : Dict Text Text
  pub goal_map : Dict Text Text
  pub fund_map : Dict Text Text

abbrev pub fund_code : Fund → Text
fund_code f = f.fund_code

abbrev pub client_id : Client → Text
client_id c = c.id

abbrev pub account_id : Account → Text
account_id a = a.id

abbrev pub goal_id : Goal → Text
goal_id g = g.id

abbrev pub fund_id : Fund → Text
fund_id f = f.id

unfoldable pub references : Database → List ParsedFundTransaction → References
unfolding ids_of
references db ts = record {
  client_map = ids_of name_of client_id db.clients (map client_of ts);
  account_map = ids_of number_of account_id db.accounts (map account_of ts);
  goal_map = ids_of goal_number goal_id db.goals (map goal_of ts);
  fund_map = ids_of fund_code fund_id db.funds (map fund_of ts);
}

pub record Resolved : Type 0 where
  pub transaction : ParsedFundTransaction
  pub client_id : Text
  pub account_id : Text
  pub goal_id : Text
  pub fund_id : Text

-- The ids of one transaction, where there are all four. An id is never empty.
abbrev pub with_ids :
    ParsedFundTransaction → Option Text → Option Text → Option Text → Option Text → Option Resolved
with_ids t (some client) (some account) (some goal) (some fund) = some (record {
  transaction = t;
  client_id = client;
  account_id = account;
  goal_id = goal;
  fund_id = fund;
})
with_ids t none account goal fund = none
with_ids t (some client) none goal fund = none
with_ids t (some client) (some account) none fund = none
with_ids t (some client) (some account) (some goal) none = none

unfoldable pub resolve_one : References → ParsedFundTransaction → Option Resolved
resolve_one refs t =
    with_ids t (lookup t.client_name refs.client_map) (lookup t.account_number refs.account_map)
      (lookup t.goal_number refs.goal_map) (lookup t.fund_code refs.fund_map)

unfoldable pub resolve_all : References → List ParsedFundTransaction → Result (List Resolved)
unfolding resolve_one
resolve_all refs [] = returned []
resolve_all refs (t ∷ ts) =
    let rest = resolve_all refs ts in
    elim (resolve_one refs t) [
      | none ↦ thrown (missing_foreign_key t.row_number)
      | some r ↦ elim rest [ returned rs ↦ returned (r ∷ rs) | thrown e ↦ thrown e ]
    ]

unfoldable pub resolve_foreign_keys : Database → List ParsedFundTransaction → Result (List Resolved)
unfolding references resolve_all
resolve_foreign_keys db ts = resolve_all (references db ts) ts

-- `transactionId || null`
abbrev pub text_or_null : Text → Option Text
text_or_null [] = none
text_or_null (c ∷ s) = some (c ∷ s)

unfoldable pub stored_row : Text → Resolved → StoredTransaction
stored_row batch_id r = record {
  fund_transaction_id = r.transaction.fund_transaction_id;
  goal_transaction_code = r.transaction.goal_transaction_code;
  transaction_id = text_or_null r.transaction.transaction_id;
  source = r.transaction.source;
  client_id = r.client_id;
  account_id = r.account_id;
  goal_id = r.goal_id;
  fund_id = r.fund_id;
  upload_batch_id = batch_id;
  transaction_date = r.transaction.transaction_date;
  date_created = r.transaction.date_created;
  transaction_type = r.transaction.transaction_type;
  amount = r.transaction.amount;
  units = r.transaction.units;
  bid_price = r.transaction.bid_price;
  offer_price = r.transaction.offer_price;
  mid_price = r.transaction.mid_price;
  price_date = r.transaction.transaction_date;
  row_number = r.transaction.row_number;
}

-- The values of the enumerations TransactionType and TransactionSource.
abbrev pub transaction_types : List Text
transaction_types =
    codes "DEPOSIT"
    ∷ codes "WITHDRAWAL"
    ∷ codes "REDEMPTION"
    ∷ codes "SWITCH"
    ∷ codes "DIVIDEND"
    ∷ codes "TRANSFER"
    ∷ []

abbrev pub transaction_sources : List Text
transaction_sources =
    codes "Transfer_Reversal"
    ∷ codes "AIRTEL_APP"
    ∷ codes "MTN_USSD"
    ∷ codes "AIRTEL_WEB"
    ∷ codes "MTN_APP"
    ∷ codes "MTN_WEB"
    ∷ codes "BANK"
    ∷ codes "MTN_MOMO"
    ∷ codes "AIRTEL_MONEY"
    ∷ codes "RT_Adjustment"
    ∷ []

abbrev pub fits_source : Option Text → Bool
fits_source none = true
fits_source (some source) = includes transaction_sources source

-- A number that is there, and below the limit of its column.
abbrev pub fits_number : ℕ → Option ℤ → Bool
fits_number limit none = false
fits_number limit (some n) = ltb (abs n) limit

-- Decimal(18, 2), whose values are rounded to hundredths, and Decimal(18, 6), in millionths.
abbrev pub amount_limit : ℕ
amount_limit = 9_999_999_999_999_999_995_000

abbrev pub unit_limit : ℕ
unit_limit = 1_000_000_000_000_000_000

-- Whether the columns take the values of the transaction: `new Prisma.Decimal` and the columns refuse
-- a missing number, the columns too large a one, a missing date, and a text that is no value of the
-- enumeration.
unfoldable pub fits_columns : ParsedFundTransaction → Bool
fits_columns t =
    includes transaction_types t.transaction_type
    && fits_source t.source
    && not (is_missing t.transaction_date)
    && not (is_missing t.date_created)
    && fits_number amount_limit t.amount
    && fits_number unit_limit t.units
    && fits_number unit_limit t.bid_price
    && fits_number unit_limit t.offer_price
    && fits_number unit_limit t.mid_price

abbrev pub fits_row : Resolved → Bool
fits_row r = fits_columns r.transaction

-- What was resolved, unless some row has a value that its column does not take.
abbrev pub checked : Result (List Resolved) → Result (List Resolved)
checked (thrown e) = thrown e
checked (returned rs) = if all fits_row rs then returned rs else thrown invalid_value

-- The two unique keys of the table: the fund transaction id, and the row of an upload.
abbrev pub conflicts : StoredTransaction → StoredTransaction → Bool
conflicts s t =
    s.fund_transaction_id == t.fund_transaction_id
    || s.upload_batch_id == t.upload_batch_id && s.row_number == t.row_number

-- `createMany({ data, skipDuplicates: true })`
unfoldable pub create_many :
    List StoredTransaction → List StoredTransaction → List StoredTransaction
create_many table [] = table
create_many table (row ∷ rows) =
    let kept = create_many (table ++ row ∷ []) rows in
    let skipped = create_many table rows in if any (conflicts row) table then skipped else kept

unfoldable pub save_batch :
    Database
    → Text
    → List StoredTransaction
    → List ParsedFundTransaction
    → Result (List StoredTransaction)
unfolding resolve_foreign_keys fits_columns stored_row create_many
save_batch db batch_id table ts = elim (checked (resolve_foreign_keys db ts)) [
  | thrown e ↦ thrown e
  | returned rs ↦ returned (create_many table (map (stored_row batch_id) rs))
]

-- The loop over the slices, on fuel for the number of slices.
unfoldable pub save_slices :
    ℕ
    → ℕ
    → Database
    → Text
    → List StoredTransaction
    → ℕ
    → List ParsedFundTransaction
    → Result (List StoredTransaction × ℕ)
unfolding save_batch
save_slices fuel size db batch_id table count [] = returned (table, count)
save_slices zero size db batch_id table count (t ∷ ts) = returned (table, count)
save_slices (suc fuel) size db batch_id table count (t ∷ ts) =
    let slice = take size (t ∷ ts) in
    elim (save_batch db batch_id table slice) [
      | thrown e ↦ thrown e
      | returned saved ↦
          save_slices fuel size db batch_id saved (count + length slice) (drop size (t ∷ ts))
    ]

-- `saveTransactions`: the tables after it and the count, or what it throws, with the tables as they
-- were. `size` is `config.processing.batchInsertSize`; a list has no more slices than elements.
unfoldable pub save_transactions :
    ℕ → Text → List ParsedFundTransaction → Database → Result (Database × ℕ)
unfolding save_slices
save_transactions size batch_id ts db =
    elim (save_slices (length ts) size db batch_id db.fund_transactions 0 ts) [
      | thrown e ↦ thrown e
      | returned saved ↦ returned (record db { fund_transactions = saved.0 }, saved.1)
    ]

abbrev pub invalid_row : Text → InvalidTransaction → InvalidFundTransaction
invalid_row batch_id item = record {
  upload_batch_id = batch_id;
  row_number = item.transaction.row_number;
  raw_data = item.transaction;
  validation_errors = item.errors;
}

-- `saveInvalidTransactions`: the table has no unique key, so no row is skipped.
unfoldable pub save_invalid_transactions : Text → List InvalidTransaction → Database → Database
save_invalid_transactions batch_id items db = record db {
  invalid_transactions = db.invalid_transactions ++ map (invalid_row batch_id) items;
}

abbrev pub is_of_batch : Text → StoredTransaction → Bool
is_of_batch batch_id row = row.upload_batch_id == batch_id

abbrev pub is_invalid_of_batch : Text → InvalidFundTransaction → Bool
is_invalid_of_batch batch_id row = row.upload_batch_id == batch_id

unfoldable pub delete_transactions_by_batch_id : Text → Database → Database
delete_transactions_by_batch_id batch_id db = record db {
  fund_transactions = filter_by (λ row. not (is_of_batch batch_id row)) db.fund_transactions;
  invalid_transactions =
      filter_by (λ row. not (is_invalid_of_batch batch_id row)) db.invalid_transactions;
}
