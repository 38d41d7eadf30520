-- ===== src/Upload/Rollback/Safe.antt =====
-- What a rollback that succeeds has deleted and kept.
use xeno_reconciliation.Prelude.{
  ◌≡◌, refl, sym, ap, false, not, none, some, List, [], ◌∷◌, inl, inr, nat_eq, list_eq, filter_by,
  length, ltb, Bool-cases, Option-cases, arith,
}
use xeno_reconciliation.Prelude.Text.{Text}
use xeno_reconciliation.Upload.Records.{
  StoredTransaction, UploadBatch, Result, returned, thrown, Database,
}
use xeno_reconciliation.Upload.Batches.{is_batch, get_batch}
use xeno_reconciliation.Upload.Repository.{is_of_batch, goal_id, account_id, client_id}
use xeno_reconciliation.Upload.Repository.Slices.{Result-cases}
use xeno_reconciliation.Upload.Rollback.{
  is_busy, Progress, transaction_goal, transaction_account, transaction_client, drop_goal,
  drop_account, drop_client, for_each, after_result, own_rows, without_transactions,
  delete_entities, without_batch, ids_in, rollback_batch,
}
use xeno_reconciliation.Upload.Rollback.Integrity.{
  Integrity, Kept, drop_goal-Kept, drop_account-Kept, drop_client-Kept,
}
use xeno_reconciliation.Upload.Rollback.References.{
  RefersTo-filter_by, for_each-keeps, returned_injective, thrown_is_not_returned,
}

after_result-cases :
    (r : Result Progress) (rest : Progress → Result Progress) (q : Progress)
    → after_result r rest ≡ returned q
    → (p : Progress) × (r ≡ returned p) × (rest p ≡ returned q)
after_result-cases (returned p) rest q h = (p, refl, h)
after_result-cases (thrown e) rest q h = absurd (thrown_is_not_returned e q h)

without_transactions-Integrity :
    (id : Text) (db : Database) → Integrity db → Integrity (without_transactions id db).database
without_transactions-Integrity id db ok = record {
  fund_goals =
      RefersTo-filter_by transaction_goal goal_id _ db.fund_transactions db.goals ok.fund_goals;
  fund_accounts =
      RefersTo-filter_by transaction_account account_id _ db.fund_transactions db.accounts
        ok.fund_accounts;
  fund_clients =
      RefersTo-filter_by transaction_client client_id _ db.fund_transactions db.clients
        ok.fund_clients;
  bank_goals = ok.bank_goals;
  bank_accounts = ok.bank_accounts;
  bank_clients = ok.bank_clients;
  goal_accounts = ok.goal_accounts;
  account_clients = ok.account_clients;
}

nothing_own :
    (id : Text) (rows : List StoredTransaction)
    → ltb 0 (length (filter_by (is_of_batch id) rows)) ≡ false
    → (filter_by (λ row. not (is_of_batch id row)) rows ≡ rows)
      × (length (filter_by (is_of_batch id) rows) ≡ 0)
nothing_own id [] h = (refl, refl)
nothing_own id (row ∷ rows) h = elim (Bool-cases (is_of_batch id row)) [
  | inl own ↦ ground (arith, h, own)
  | inr other ↦
      let (same, empty) = nothing_own id rows (ground (arith, h, other)) in
      (ground (arith, other, same), ground (arith, other, empty))
]

delete_entities-Kept :
    (id : Text) (db : Database) (q : Progress)
    → Integrity db
    → delete_entities id db ≡ returned q
    → Kept (without_transactions id db) q
unfolding delete_entities
delete_entities-Kept id db q ok h =
    let start = without_transactions id db in
    let own = own_rows id db in
    elim (Bool-cases (ltb 0 (length (own_rows id db)))) [
      | inl some_own ↦
          let (goals_done, e, rest) =
            after_result-cases (for_each drop_goal (ids_in transaction_goal own) start)
              (λ p.
                after_result (for_each drop_account (ids_in transaction_account own) p)
                  (for_each drop_client (ids_in transaction_client own)))
              q (rw (delete_entities, some_own) at h) in
          let (accounts_done, k, last) =
            after_result-cases (for_each drop_account (ids_in transaction_account own) goals_done)
              (for_each drop_client (ids_in transaction_client own)) q rest in
          let first : Kept start start = record {
            integrity = without_transactions-Integrity id db ok;
            fund_transactions = refl;
            bank_goal_transactions = refl;
            batches = refl;
            deleted = refl;
          } in
          for_each-keeps (Kept start) drop_client (drop_client-Kept start)
            (ids_in transaction_client own) accounts_done q last
            (for_each-keeps (Kept start) drop_account (drop_account-Kept start)
              (ids_in transaction_account own) goals_done accounts_done k
              (for_each-keeps (Kept start) drop_goal (drop_goal-Kept start)
                (ids_in transaction_goal own) start goals_done e first))
      | inr none_own ↦
          let (same, empty) = nothing_own id db.fund_transactions none_own in
          rw⁻¹ (returned_injective _ q (rw (delete_entities, none_own) at h)) (record {
            integrity = ok;
            fund_transactions = sym same;
            bank_goal_transactions = refl;
            batches = refl;
            deleted = sym empty;
          })
    ]

get_batch-without :
    (id : Text) (bs : List UploadBatch)
    → get_batch id (filter_by (λ b. not (is_batch id b)) bs) ≡ none
unfolding get_batch
get_batch-without id [] = refl
get_batch-without id (b ∷ bs) = elim (Bool-cases (is_batch id b)) [
  | inl own ↦ rw own (get_batch-without id bs)
  | inr other ↦ rw other (ground (arith, other, get_batch-without id bs))
]

-- What a rollback leaves behind.
pub record RolledBack (id : Text) (db : Database) (q : Progress) : Type 0 where
  pub integrity : Integrity q.database
  pub fund_transactions :
      q.database.fund_transactions
      ≡ filter_by (λ row. not (is_of_batch id row)) db.fund_transactions
  pub bank_goal_transactions : q.database.bank_goal_transactions ≡ db.bank_goal_transactions
  pub batch : get_batch id q.database.batches ≡ none
  pub batches : q.database.batches ≡ filter_by (λ b. not (is_batch id b)) db.batches
  pub deleted : q.counts.fund_transactions ≡ length (own_rows id db)

without_batch-RolledBack :
    (id : Text) (db : Database) (p : Progress)
    → Kept (without_transactions id db) p
    → RolledBack id db (without_batch id p)
without_batch-RolledBack id db p kept = record {
  integrity = record {
    fund_goals = kept.integrity.fund_goals;
    fund_accounts = kept.integrity.fund_accounts;
    fund_clients = kept.integrity.fund_clients;
    bank_goals = kept.integrity.bank_goals;
    bank_accounts = kept.integrity.bank_accounts;
    bank_clients = kept.integrity.bank_clients;
    goal_accounts = kept.integrity.goal_accounts;
    account_clients = kept.integrity.account_clients;
  };
  fund_transactions = kept.fund_transactions;
  bank_goal_transactions = kept.bank_goal_transactions;
  batch = get_batch-without id p.database.batches;
  batches = ap (filter_by (λ b. not (is_batch id b))) kept.batches;
  deleted = kept.deleted;
}

-- Where every transaction, goal and account refers to rows that exist, a rollback that succeeds was
-- of a batch that was not being processed; of the batches it deletes this one only, and of the fund
-- transactions those of this batch only, whose number is the count that it answers; the bank's
-- transactions stay as they were; and whatever goals, accounts and clients it deletes, every
-- transaction, goal and account that is left still refers to rows that exist.
pub rollback_batch-RolledBack :
    (id : Text) (db : Database) (q : Progress)
    → Integrity db
    → rollback_batch id db ≡ returned q
    → ((b : UploadBatch) × (get_batch id db.batches ≡ some b)
        × (is_busy b.processing_status ≡ false))
      × RolledBack id db q
unfolding rollback_batch
rollback_batch-RolledBack id db q ok h = elim (Option-cases (get_batch id db.batches)) [
  | inl e ↦ absurd (thrown_is_not_returned _ q (rw (rollback_batch, e) at h))
  | inr (b, e) ↦ elim (Bool-cases (is_busy b.processing_status)) [
    | inl busy ↦ absurd (thrown_is_not_returned _ q (rw (rollback_batch, e, busy) at h))
    | inr idle ↦ elim (Result-cases (delete_entities id db)) [
      | inr (error, k) ↦ absurd (thrown_is_not_returned _ q (rw (rollback_batch, e, idle, k) at h))
      | inl (p, k) ↦ (
        (b, e, idle),
        rw⁻¹ (returned_injective _ q (rw (rollback_batch, e, idle, k) at h))
            (without_batch-RolledBack id db p (delete_entities-Kept id db p ok k)),
      )
    ]
  ]
]
