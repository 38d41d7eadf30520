-- ===== src/Upload/Rollback.antt =====
-- `BatchRollbackService`, src/services/fund-upload/database/BatchRollbackService.ts.
pub mod References
pub mod Integrity
pub mod Safe
use xeno_reconciliation.Prelude.{
  ℕ, ◌+◌, Bool, true, false, not, ◌||◌, none, some, List, [], ◌∷◌, map, if◌then◌else◌, ◌==◌, nat_eq,
  list_eq, any, filter_by, includes, length, ltb,
}
use xeno_reconciliation.Prelude.Text.{Text}
use xeno_reconciliation.Validation.GoalGroups.{set_from}
use xeno_reconciliation.Upload.Records.{
  ProcessingStatus, queued, parsing, validating, processing, waiting_for_approval, completed,
  failed, canceled, Account, Goal, StoredTransaction, BankGoalTransaction, record_not_found,
  batch_not_found, currently_processing, restricted, Result, returned, thrown, Database,
}
use xeno_reconciliation.Upload.Batches.{is_batch, get_batch}
use xeno_reconciliation.Upload.Repository.{
  is_of_batch, is_invalid_of_batch, goal_id, account_id, client_id,
}

abbrev pub is_busy : ProcessingStatus → Bool
is_busy queued = false
is_busy parsing = true
is_busy validating = true
is_busy processing = true
is_busy waiting_for_approval = false
is_busy completed = false
is_busy failed = false
is_busy canceled = false

pub record DeletedCounts : Type 0 where
  pub fund_transactions : ℕ
  pub goals : ℕ
  pub accounts : ℕ
  pub clients : ℕ

-- The tables and the counts within the transaction.
pub record Progress : Type 0 where
  pub database : Database
  pub counts : DeletedCounts

abbrev pub transaction_goal : StoredTransaction → Text
transaction_goal t = t.goal_id

abbrev pub transaction_account : StoredTransaction → Text
transaction_account t = t.account_id

abbrev pub transaction_client : StoredTransaction → Text
transaction_client t = t.client_id

abbrev pub bank_goal : BankGoalTransaction → Text
bank_goal t = t.goal_id

abbrev pub bank_account : BankGoalTransaction → Text
bank_account t = t.account_id

abbrev pub bank_client : BankGoalTransaction → Text
bank_client t = t.client_id

abbrev pub goal_account : Goal → Text
goal_account g = g.account_id

abbrev pub account_client : Account → Text
account_client a = a.client_id

-- Whether some row refers to `k`: `count({ where: { ... } }) !== 0`
abbrev pub refers {ℓ} : {A : Type ℓ} → (A → Text) → Text → List A → Bool
refers ref k rows = any (λ row. ref row == k) rows

abbrev pub without {ℓ} : {A : Type ℓ} → (A → Text) → Text → List A → List A
without id k rows = filter_by (λ row. not (id row == k)) rows

-- `delete({ where: { id } })` of a goal, an account or a client: the row must be there, and the
-- foreign keys of the transactions (`onDelete: Restrict`) must not refer to it. What `Cascade` would
-- delete with it, the goals of an account and the accounts of a client, has gone by then.
unfoldable pub delete_goal : Text → Database → Result Database
delete_goal k db =
    if not (includes (map goal_id db.goals) k)
    then thrown record_not_found
    else (if refers transaction_goal k db.fund_transactions
          || refers bank_goal k db.bank_goal_transactions
        then thrown restricted
        else returned (record db { goals = without goal_id k db.goals }))

unfoldable pub delete_account : Text → Database → Result Database
delete_account k db =
    if not (includes (map account_id db.accounts) k)
    then thrown record_not_found
    else (if refers transaction_account k db.fund_transactions
          || refers bank_account k db.bank_goal_transactions
        then thrown restricted
        else returned (record db { accounts = without account_id k db.accounts }))

unfoldable pub delete_client : Text → Database → Result Database
delete_client k db =
    if not (includes (map client_id db.clients) k)
    then thrown record_not_found
    else (if refers transaction_client k db.fund_transactions
          || refers bank_client k db.bank_goal_transactions
        then thrown restricted
        else returned (record db { clients = without client_id k db.clients }))

abbrev pub count_goal : DeletedCounts → DeletedCounts
count_goal c = record c { goals = c.goals + 1 }

abbrev pub count_account : DeletedCounts → DeletedCounts
count_account c = record c { accounts = c.accounts + 1 }

abbrev pub count_client : DeletedCounts → DeletedCounts
count_client c = record c { clients = c.clients + 1 }

abbrev pub counted :
    (DeletedCounts → DeletedCounts) → DeletedCounts → Result Database → Result Progress
counted count counts (thrown e) = thrown e
counted count counts (returned db) = returned (record { database = db; counts = count counts })

-- A goal of the batch: deleted where no transaction is left that refers to it.
unfoldable pub drop_goal : Text → Progress → Result Progress
unfolding delete_goal
drop_goal k p =
    if refers transaction_goal k p.database.fund_transactions
    then returned p
    else (if refers bank_goal k p.database.bank_goal_transactions
        then returned p
        else counted count_goal p.counts (delete_goal k p.database))

-- An account of the batch: deleted where it has no goal left.
unfoldable pub drop_account : Text → Progress → Result Progress
unfolding delete_account
drop_account k p =
    if refers goal_account k p.database.goals
    then returned p
    else counted count_account p.counts (delete_account k p.database)

-- A client of the batch: deleted where it has no account left.
unfoldable pub drop_client : Text → Progress → Result Progress
unfolding delete_client
drop_client k p =
    if refers account_client k p.database.accounts
    then returned p
    else counted count_client p.counts (delete_client k p.database)

-- A loop over ids whose body may throw.
abbrev pub after_result : Result Progress → (Progress → Result Progress) → Result Progress
after_result (thrown e) rest = thrown e
after_result (returned p) rest = rest p

unfoldable pub for_each :
    (Text → Progress → Result Progress) → List Text → Progress → Result Progress
for_each step [] p = returned p
for_each step (k ∷ ks) p = after_result (step k p) (for_each step ks)

abbrev pub no_counts : DeletedCounts
no_counts = record { fund_transactions = 0; goals = 0; accounts = 0; clients = 0 }

abbrev pub own_rows : Text → Database → List StoredTransaction
own_rows id db = filter_by (is_of_batch id) db.fund_transactions

-- Step 2: the transactions of the batch.
abbrev pub without_transactions : Text → Database → Progress
without_transactions id db = record {
  database = record db {
    fund_transactions = filter_by (λ row. not (is_of_batch id row)) db.fund_transactions;
  };
  counts = record no_counts { fund_transactions = length (own_rows id db) };
}

abbrev pub ids_in : (StoredTransaction → Text) → List StoredTransaction → List Text
ids_in ref rows = set_from [] (map ref rows)

-- Steps 2 to 5, where the batch has transactions.
unfoldable pub delete_entities : Text → Database → Result Progress
unfolding for_each drop_goal drop_account drop_client set_from
delete_entities id db =
    let own = own_rows id db in
    if ltb 0 (length own)
    then after_result
        (for_each drop_goal (ids_in transaction_goal own) (without_transactions id db))
        (λ p.
          after_result (for_each drop_account (ids_in transaction_account own) p)
            (for_each drop_client (ids_in transaction_client own)))
    else returned (record { database = db; counts = no_counts })

-- Steps 6 and 7: the invalid transactions, and the batch itself.
abbrev pub without_batch : Text → Progress → Progress
without_batch id p = record p {
  database = record p.database {
    invalid_transactions =
        filter_by (λ row. not (is_invalid_of_batch id row)) p.database.invalid_transactions;
    batches = filter_by (λ b. not (is_batch id b)) p.database.batches;
  };
}

abbrev pub finished : Text → Result Progress → Result Progress
finished id (thrown e) = thrown e
finished id (returned p) = returned (without_batch id p)

-- `rollbackBatch`: what it throws leaves the tables as they were, since the deletions are one
-- transaction. The refresh of the views changes none of the tables.
unfoldable pub rollback_batch : Text → Database → Result Progress
unfolding get_batch delete_entities
rollback_batch id db = elim (get_batch id db.batches) [
  | none ↦ thrown batch_not_found
  | some batch ↦
      if is_busy batch.processing_status
      then thrown currently_processing
      else finished id (delete_entities id db)
]
