-- ===== src/Upload/Rollback/Integrity.antt =====
-- A rollback keeps what other rows refer to.
use xeno_reconciliation.Prelude.{
  ◌≡◌, false, ◌||◌, map, inl, inr, nat_eq, list_eq, includes, Bool-cases, arith,
}
use xeno_reconciliation.Prelude.Text.{Text}
use xeno_reconciliation.Upload.Records.{Result, returned, Database}
use xeno_reconciliation.Upload.Repository.{goal_id, account_id, client_id}
use xeno_reconciliation.Upload.Rollback.{
  Progress, transaction_goal, transaction_account, transaction_client, bank_goal, bank_account,
  bank_client, goal_account, account_client, refers, without, delete_goal, delete_account,
  delete_client, drop_goal, drop_account, drop_client,
}
use xeno_reconciliation.Upload.Rollback.References.{
  RefersTo, RefersTo-without, RefersTo-filter_by, returned_injective, thrown_is_not_returned,
}

-- The foreign keys of the transactions, goals and accounts.
pub record Integrity (db : Database) : Type 0 where
  pub fund_goals : RefersTo transaction_goal goal_id db.fund_transactions db.goals
  pub fund_accounts : RefersTo transaction_account account_id db.fund_transactions db.accounts
  pub fund_clients : RefersTo transaction_client client_id db.fund_transactions db.clients
  pub bank_goals : RefersTo bank_goal goal_id db.bank_goal_transactions db.goals
  pub bank_accounts : RefersTo bank_account account_id db.bank_goal_transactions db.accounts
  pub bank_clients : RefersTo bank_client client_id db.bank_goal_transactions db.clients
  pub goal_accounts : RefersTo goal_account account_id db.goals db.accounts
  pub account_clients : RefersTo account_client client_id db.accounts db.clients

-- What the loops keep: the foreign keys, and all but the goals, the accounts and the clients.
pub record Kept (start p : Progress) : Type 0 where
  pub integrity : Integrity p.database
  pub fund_transactions : p.database.fund_transactions ≡ start.database.fund_transactions
  pub bank_goal_transactions :
      p.database.bank_goal_transactions ≡ start.database.bank_goal_transactions
  pub batches : p.database.batches ≡ start.database.batches
  pub deleted : p.counts.fund_transactions ≡ start.counts.fund_transactions

-- The deletion of a goal that nothing refers to.
without_goal-Integrity :
    (k : Text) (db : Database)
    → refers transaction_goal k db.fund_transactions ≡ false
    → refers bank_goal k db.bank_goal_transactions ≡ false
    → Integrity db
    → Integrity (record db { goals = without goal_id k db.goals })
without_goal-Integrity k db h0 h1 ok = record {
  fund_goals =
      RefersTo-without transaction_goal goal_id k db.fund_transactions db.goals h0 ok.fund_goals;
  fund_accounts = ok.fund_accounts;
  fund_clients = ok.fund_clients;
  bank_goals =
      RefersTo-without bank_goal goal_id k db.bank_goal_transactions db.goals h1 ok.bank_goals;
  bank_accounts = ok.bank_accounts;
  bank_clients = ok.bank_clients;
  goal_accounts =
      RefersTo-filter_by goal_account account_id _ db.goals db.accounts ok.goal_accounts;
  account_clients = ok.account_clients;
}

-- The deletion of an account that nothing refers to.
without_account-Integrity :
    (k : Text) (db : Database)
    → refers transaction_account k db.fund_transactions ≡ false
    → refers bank_account k db.bank_goal_transactions ≡ false
    → refers goal_account k db.goals ≡ false
    → Integrity db
    → Integrity (record db { accounts = without account_id k db.accounts })
without_account-Integrity k db h0 h1 h2 ok = record {
  fund_goals = ok.fund_goals;
  fund_accounts =
      RefersTo-without transaction_account account_id k db.fund_transactions db.accounts h0
        ok.fund_accounts;
  fund_clients = ok.fund_clients;
  bank_goals = ok.bank_goals;
  bank_accounts =
      RefersTo-without bank_account account_id k db.bank_goal_transactions db.accounts h1
        ok.bank_accounts;
  bank_clients = ok.bank_clients;
  goal_accounts =
      RefersTo-without goal_account account_id k db.goals db.accounts h2 ok.goal_accounts;
  account_clients =
      RefersTo-filter_by account_client client_id _ db.accounts db.clients ok.account_clients;
}

-- The deletion of a client that nothing refers to.
without_client-Integrity :
    (k : Text) (db : Database)
    → refers transaction_client k db.fund_transactions ≡ false
    → refers bank_client k db.bank_goal_transactions ≡ false
    → refers account_client k db.accounts ≡ false
    → Integrity db
    → Integrity (record db { clients = without client_id k db.clients })
without_client-Integrity k db h0 h1 h2 ok = record {
  fund_goals = ok.fund_goals;
  fund_accounts = ok.fund_accounts;
  fund_clients =
      RefersTo-without transaction_client client_id k db.fund_transactions db.clients h0
        ok.fund_clients;
  bank_goals = ok.bank_goals;
  bank_accounts = ok.bank_accounts;
  bank_clients =
      RefersTo-without bank_client client_id k db.bank_goal_transactions db.clients h1
        ok.bank_clients;
  goal_accounts = ok.goal_accounts;
  account_clients =
      RefersTo-without account_client client_id k db.accounts db.clients h2 ok.account_clients;
}

module _ (start : Progress) where
  moved :
      (p q : Progress)
      → ◌≡◌ {A = Result Progress} (returned p) (returned q)
      → Kept start p
      → Kept start q
  moved p q h kept = rw⁻¹ (returned_injective p q h) kept

  pub drop_goal-Kept :
      (k : Text) (p q : Progress) → drop_goal k p ≡ returned q → Kept start p → Kept start q
  unfolding drop_goal delete_goal
  drop_goal-Kept k p q h kept =
      let db = p.database in
      elim (Bool-cases (refers transaction_goal k db.fund_transactions)) [
        | inl used ↦ moved p q (rw (drop_goal, used) at h) kept
        | inr unused ↦ elim (Bool-cases (refers bank_goal k db.bank_goal_transactions)) [
          | inl used ↦ moved p q (rw (drop_goal, unused, used) at h) kept
          | inr free ↦ elim (Bool-cases (includes (map goal_id db.goals) k)) [
            | inr missing ↦ absurd (
                thrown_is_not_returned _ q
                  (rw (drop_goal, unused, free, delete_goal, missing) at h))
            | inl there ↦
                moved _ q (rw (drop_goal, unused, free, delete_goal, there) at h) (record {
                  integrity = without_goal-Integrity k db unused free kept.integrity;
                  fund_transactions = kept.fund_transactions;
                  bank_goal_transactions = kept.bank_goal_transactions;
                  batches = kept.batches;
                  deleted = kept.deleted;
                })
          ]
        ]
      ]

  pub drop_account-Kept :
      (k : Text) (p q : Progress) → drop_account k p ≡ returned q → Kept start p → Kept start q
  unfolding drop_account delete_account
  drop_account-Kept k p q h kept =
      let db = p.database in
      elim (Bool-cases (refers goal_account k db.goals)) [
        | inl used ↦ moved p q (rw (drop_account, used) at h) kept
        | inr unused ↦ elim (Bool-cases (includes (map account_id db.accounts) k)) [
          | inr missing ↦
              absurd (
                thrown_is_not_returned _ q
                  (rw (drop_account, unused, delete_account, missing) at h))
          | inl there ↦
              elim (Bool-cases (
                refers transaction_account k db.fund_transactions
                || refers bank_account k db.bank_goal_transactions)) [
                  | inl used ↦ absurd (
                      thrown_is_not_returned _ q
                        (rw (drop_account, unused, delete_account, there, used) at h))
                  | inr free ↦
                      moved _ q (rw (drop_account, unused, delete_account, there, free) at h)
                        (record {
                          integrity =
                              without_account-Integrity k db (ground (arith, free))
                                (ground (arith, free)) unused kept.integrity;
                          fund_transactions = kept.fund_transactions;
                          bank_goal_transactions = kept.bank_goal_transactions;
                          batches = kept.batches;
                          deleted = kept.deleted;
                        })
                ]
        ]
      ]

  pub drop_client-Kept :
      (k : Text) (p q : Progress) → drop_client k p ≡ returned q → Kept start p → Kept start q
  unfolding drop_client delete_client
  drop_client-Kept k p q h kept =
      let db = p.database in
      elim (Bool-cases (refers account_client k db.accounts)) [
        | inl used ↦ moved p q (rw (drop_client, used) at h) kept
        | inr unused ↦ elim (Bool-cases (includes (map client_id db.clients) k)) [
          | inr missing ↦
              absurd
                (thrown_is_not_returned _ q (rw (drop_client, unused, delete_client, missing) at h))
          | inl there ↦
              elim (Bool-cases (
                refers transaction_client k db.fund_transactions
                || refers bank_client k db.bank_goal_transactions)) [
                  | inl used ↦ absurd (
                      thrown_is_not_returned _ q
                        (rw (drop_client, unused, delete_client, there, used) at h))
                  | inr free ↦
                      moved _ q (rw (drop_client, unused, delete_client, there, free) at h)
                        (record {
                          integrity =
                              without_client-Integrity k db (ground (arith, free))
                                (ground (arith, free)) unused kept.integrity;
                          fund_transactions = kept.fund_transactions;
                          bank_goal_transactions = kept.bank_goal_transactions;
                          batches = kept.batches;
                          deleted = kept.deleted;
                        })
                ]
        ]
      ]
