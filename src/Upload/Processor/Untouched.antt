-- ===== src/Upload/Processor/Untouched.antt =====
-- What a run leaves in the table of transactions, and the updates of the batch that leave it alone.
use xeno_reconciliation.Prelude.{
  ◌≡◌, refl, sym, ◌∙◌, ◌⊎◌, inl, inr, Bool, false, not, none, some, List, [], ◌∷◌, map, Bool-cases,
  arith, length, filter_by, ltb, any,
}
use xeno_reconciliation.Prelude.Text.{Text}
use xeno_reconciliation.Validation.Types.{ParsedFundTransaction}
use xeno_reconciliation.Validation.Batch.{InvalidTransaction, validate_batch}
use xeno_reconciliation.Validation.Partition.{
  is_rejected, transaction_of, validate_batch_partitions,
}
use xeno_reconciliation.Upload.Records.{
  completed, waiting_for_approval, StoredTransaction, UploadBatch, Database, Run, and_then,
}
use xeno_reconciliation.Upload.Batches.{is_batch, update_batch}
use xeno_reconciliation.Upload.Batches.Laws.{HasBatch, KeepsId, update_batch-HasBatch}
use xeno_reconciliation.Upload.Repository.{Resolved, stored_row, create_many}
use xeno_reconciliation.Upload.Repository.Known.{resolved_transaction}
use xeno_reconciliation.Upload.Processor.{Setting}
use xeno_reconciliation.Upload.Processor.Ends.{Exists}

-- The table after the creation of a row for each of the transactions, in their order.
abbrev pub SavesAll :
    Text → List ParsedFundTransaction → List StoredTransaction → List StoredTransaction → Type 0
SavesAll id ts before after =
    (rs : List Resolved) × (map resolved_transaction rs ≡ ts)
    × (after ≡ create_many before (map (stored_row id) rs))

-- What the batch says of the table of transactions.
abbrev pub Tells :
    Text
    → List ParsedFundTransaction
    → List StoredTransaction
    → List StoredTransaction
    → UploadBatch
    → Type 0
Tells id ts before after b =
    ((b.processing_status ≡ waiting_for_approval) × (after ≡ before))
    ⊎ ((b.processing_status ≡ completed) × SavesAll id ts before after)

-- Nothing is saved by a run that throws or waits, and every transaction by one that completes.
abbrev pub AllOrNothing : Text → List ParsedFundTransaction → List StoredTransaction → Run → Type 0
AllOrNothing id ts before run = elim run.error [
  | some e ↦ run.database.fund_transactions ≡ before
  | none ↦ HasBatch id (Tells id ts before run.database.fund_transactions) run.database
]

-- The batch is there, and no transaction has been saved.
abbrev pub Untouched : Text → List StoredTransaction → Database → Type 0
Untouched id before db = HasBatch id Exists db × (db.fund_transactions ≡ before)

module _ (id : Text) (change : UploadBatch → UploadBatch) where
  pub update_batch-fund_transactions :
      (db : Database)
      → (update_batch id change db).database.fund_transactions ≡ db.fund_transactions
  unfolding update_batch
  update_batch-fund_transactions db = elim (Bool-cases (any (is_batch id) db.batches)) [
    | inl e ↦ rw (update_batch, e) refl
    | inr e ↦ rw (update_batch, e) refl
  ]

  module _ (keeps : KeepsId change) (before : List StoredTransaction) where
    pub and_then-Untouched :
        (Q : Run → Type 0) (rest : Database → Run) (db : Database)
        → Untouched id before db
        → ((after : Database) → Untouched id before after → Q (rest after))
        → Q (and_then (update_batch id change db) rest)
    and_then-Untouched Q rest db (there, same) next =
        let (e, after) = update_batch-HasBatch id change keeps Exists db there in
        rw e (
          next (update_batch id change db).database
            (after, update_batch-fund_transactions db ∙ same))

  module _ (keeps : KeepsId change) (ts : List ParsedFundTransaction)
      (before : List StoredTransaction) where
    -- An update at the end.
    pub update_batch-AllOrNothing :
        (db : Database)
        → HasBatch id (λ b. Tells id ts before db.fund_transactions (change b)) db
        → AllOrNothing id ts before (update_batch id change db)
    update_batch-AllOrNothing db there =
        let (e, after) =
          update_batch-HasBatch id change keeps (Tells id ts before db.fund_transactions) db
            there in
        rw (e, update_batch-fund_transactions db) after

-- Where no transaction is set aside, all are valid.
pub nothing_rejected :
    (setting : Setting) (ts : List ParsedFundTransaction)
    → let result = validate_batch setting.validation setting.clock ts in
      ltb 0 (length result.invalid_transactions) ≡ false → result.valid_transactions ≡ ts
nothing_rejected setting ts empty =
    let result = validate_batch setting.validation setting.clock ts in
    let (valid, invalid) = validate_batch_partitions setting.validation setting.clock ts in
    valid
    ∙ kept (is_rejected setting.validation setting.clock) ts
        (sym invalid ∙ nothing result.invalid_transactions empty)
  where
    nothing :
        (items : List InvalidTransaction)
        → ltb 0 (length items) ≡ false
        → map transaction_of items ≡ []
    nothing [] h = refl
    nothing (i ∷ items) h = ground (arith, h)

    kept :
        (p : ParsedFundTransaction → Bool) (us : List ParsedFundTransaction)
        → filter_by p us ≡ []
        → filter_by (λ t. not (p t)) us ≡ us
    kept p [] h = refl
    kept p (u ∷ us) h = ground (arith, h, kept p us)
