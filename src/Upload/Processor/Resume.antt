-- ===== src/Upload/Processor/Resume.antt =====
-- After the approval of what was detected, a file without errors is saved.
use xeno_reconciliation.Prelude.{
  ℕ, ◌<◌, ◌≡◌, refl, ap, ◌∙◌, Bool, true, false, not, ◌&&◌, Option, none, some, List, [], ◌∷◌, map,
  arith, length, filter_by, ltb, all, includes, nat_eq, list_eq,
}
use xeno_reconciliation.Prelude.Text.{Text}
use xeno_reconciliation.Validation.Types.{ParsedFundTransaction}
use xeno_reconciliation.Validation.Batch.{InvalidTransaction, validate_batch}
use xeno_reconciliation.Validation.Partition.{
  is_rejected, transaction_of, validate_batch_partitions,
}
use xeno_reconciliation.Upload.Records.{
  completed, StoredTransaction, ProcessingError, Result, returned, thrown, UploadBatch, Database,
  Run, NewEntitiesReport, NewClientInfo, NewAccountInfo, NewGoalInfo,
}
use xeno_reconciliation.Upload.Batches.{get_batch, update_batch_with_final_results}
use xeno_reconciliation.Upload.Batches.Laws.{HasBatch, update_batch-HasBatch}
use xeno_reconciliation.Upload.Detector.{detect_new_entities}
use xeno_reconciliation.Upload.Creator.{
  create_client, create_clients, create_goal, create_goals, fits_account,
}
use xeno_reconciliation.Upload.Creator.Laws.{
  added_account, added_accounts, added_entities, create_approved_entities-added,
}
use xeno_reconciliation.Upload.Creator.Complete.{Grown, added_entities-has_entities}
use xeno_reconciliation.Upload.Repository.{
  checked, fits_columns, fund_code, resolve_all, stored_row, create_many,
}
use xeno_reconciliation.Upload.Repository.Resolve.{all_references}
use xeno_reconciliation.Upload.Repository.Slices.{checked-returned, save_transactions-returned}
use xeno_reconciliation.Upload.Repository.Known.{
  has_entities, has_fund, returns, returns-checked, returns-resolve_known, resolve_all-transactions,
}
use xeno_reconciliation.Upload.Processor.{
  Setting, finalize_processing, save_again, is_approved, create_and_save, resume_body,
  resume_processing, catch_error,
}
use xeno_reconciliation.Upload.Processor.Untouched.{
  SavesAll, nothing_rejected, update_batch-fund_transactions,
}

-- A run that returns, with its batch completed and a row for every transaction.
abbrev pub Completes : Text → List ParsedFundTransaction → List StoredTransaction → Run → Type 0
Completes id ts before run =
    (run.error ≡ none)
    × HasBatch id (λ b. b.processing_status ≡ completed) run.database
    × SavesAll id ts before run.database.fund_transactions

module _ (new_id : ℕ → Text) where
  -- What the creation of entities leaves alone.
  abbrev Keeps : Database → Database → Type 0
  Keeps db after =
      (after.batches ≡ db.batches)
      × (after.funds ≡ db.funds)
      × (after.fund_transactions ≡ db.fund_transactions)

  create_clients-Keeps :
      (infos : List NewClientInfo) (db : Database) → Keeps db (create_clients new_id infos db)
  unfolding create_clients create_client
  create_clients-Keeps [] db = (refl, refl, refl)
  create_clients-Keeps (i ∷ infos) db = create_clients-Keeps infos (create_client new_id i db)

  added_account-Keeps : (i : NewAccountInfo) (db : Database) → Keeps db (added_account new_id i db)
  unfolding added_account
  added_account-Keeps i db = ground (arith)

  added_accounts-Keeps :
      (infos : List NewAccountInfo) (db : Database) → Keeps db (added_accounts new_id infos db)
  unfolding added_accounts
  added_accounts-Keeps [] db = (refl, refl, refl)
  added_accounts-Keeps (i ∷ infos) db =
      let (b, f, t) = added_account-Keeps i db in
      let (bs, fs, ts) = added_accounts-Keeps infos (added_account new_id i db) in
      (bs ∙ b, fs ∙ f, ts ∙ t)

  create_goal-Keeps : (i : NewGoalInfo) (db : Database) → Keeps db (create_goal new_id i db)
  unfolding create_goal
  create_goal-Keeps i db = ground (arith)

  create_goals-Keeps :
      (infos : List NewGoalInfo) (db : Database) → Keeps db (create_goals new_id infos db)
  unfolding create_goals
  create_goals-Keeps [] db = (refl, refl, refl)
  create_goals-Keeps (i ∷ infos) db =
      let (b, f, t) = create_goal-Keeps i db in
      let (bs, fs, ts) = create_goals-Keeps infos (create_goal new_id i db) in
      (bs ∙ b, fs ∙ f, ts ∙ t)

  added_entities-Keeps :
      (report : NewEntitiesReport) (db : Database) → Keeps db (added_entities new_id report db)
  added_entities-Keeps report db =
      let (b, f, t) = create_clients-Keeps report.clients db in
      let with_clients = create_clients new_id report.clients db in
      let (c, g, u) = added_accounts-Keeps report.accounts with_clients in
      let (d, h, v) =
        create_goals-Keeps report.goals (added_accounts new_id report.accounts with_clients) in
      (d ∙ (c ∙ b), h ∙ (g ∙ f), v ∙ (u ∙ t))

all-and :
    (p q : ParsedFundTransaction → Bool) (ts : List ParsedFundTransaction)
    → all p ts ≡ true
    → all q ts ≡ true
    → all (λ t. p t && q t) ts ≡ true
all-and p q [] h k = refl
all-and p q (t ∷ ts) h k = ground (arith, h, k, all-and p q ts)

none_invalid :
    (setting : Setting) (ts : List ParsedFundTransaction)
    → all (λ t. not (is_rejected setting.validation setting.clock t)) ts ≡ true
    → ltb 0 (length (validate_batch setting.validation setting.clock ts).invalid_transactions)
      ≡ false
none_invalid setting ts clean =
    let (valid, invalid) = validate_batch_partitions setting.validation setting.clock ts in
    empty (validate_batch setting.validation setting.clock ts).invalid_transactions
      (invalid ∙ none_left (is_rejected setting.validation setting.clock) ts clean)
  where
    empty :
        (items : List InvalidTransaction)
        → map transaction_of items ≡ []
        → ltb 0 (length items) ≡ false
    empty [] h = refl
    empty (i ∷ items) h = ground (arith, h)

    none_left :
        (p : ParsedFundTransaction → Bool) (us : List ParsedFundTransaction)
        → all (λ t. not (p t)) us ≡ true
        → filter_by p us ≡ []
    none_left p [] h = refl
    none_left p (u ∷ us) h = ground (arith, h, none_left p us)

returned_of {ℓ} : {A : Type ℓ} (r : Result A) → returns r ≡ true → (a : A) × (r ≡ returned a)
returned_of (returned a) h = (a, refl)
returned_of (thrown e) h = ground (arith, h)

both_hold : {p q : Bool} → p ≡ true → q ≡ true → p && q ≡ true
both_hold h k = ground (arith, h, k)

module _ (setting : Setting) (id : Text) (positive : 0 < setting.batch_insert_size)
    (ts : List ParsedFundTransaction) where
  finalize_processing-Completes :
      (db : Database)
      → HasBatch id (λ b. Unit) db
      → all (λ t. has_entities db t && has_fund db t) ts ≡ true
      → all fits_columns ts ≡ true
      → Completes id ts db.fund_transactions (finalize_processing setting id ts db)
  unfolding finalize_processing update_batch_with_final_results
  finalize_processing-Completes db (b, at_id, _) known fit =
      let (rs, resolved) = returned_of (checked (resolve_all (all_references db) ts)) (
        returns-checked (all_references db) ts
        ∙ both_hold (returns-resolve_known db ts ∙ known) fit) in
      let e = save_transactions-returned setting.batch_insert_size id ts db positive rs resolved in
      let saved : Database = record db {
        fund_transactions = create_many db.fund_transactions (map (stored_row id) rs);
      } in
      let (ends, there) =
        update_batch-HasBatch id _ (λ c. refl) (λ b. b.processing_status ≡ completed) saved
          (b, at_id, refl) in
      rw (finalize_processing, e)
        (
          ends,
          there,
          (
            rs,
            resolve_all-transactions (all_references db) ts rs
                (checked-returned (resolve_all (all_references db) ts) rs resolved),
            update_batch-fund_transactions id _ saved,
          ),
        )

  -- The report that was approved.
  abbrev pub Approved : Database → UploadBatch → Type 0
  Approved old b =
      (is_approved b.new_entities_status ≡ true)
      × (b.new_entities_report ≡ some (detect_new_entities old ts))

  resume_body-same :
      (file_path : Text) (db : Database) (b : UploadBatch) (report : NewEntitiesReport)
      → get_batch id db.batches ≡ some b
      → is_approved b.new_entities_status ≡ true
      → b.new_entities_report ≡ some report
      → setting.parse_file file_path ≡ returned ts
      → ltb 0 (length (validate_batch setting.validation setting.clock ts).invalid_transactions)
        ≡ false
      → all fits_account report.accounts ≡ true
      → resume_body setting id file_path db
        ≡ finalize_processing setting id ts (added_entities setting.new_id report db)
  unfolding resume_body create_and_save save_again
  resume_body-same file_path db b report at_id approves reported read invalid accounts =
      rw
        (
          resume_body,
          at_id,
          approves,
          reported,
          create_and_save,
          create_approved_entities-added setting.new_id report db accounts,
          save_again,
          read,
          invalid,
          nothing_rejected setting ts invalid,
        )
        refl

  returned_run :
      (db : Database) (error : Option ProcessingError)
      → error ≡ none
      → catch_error setting id (record { database = db; error = error })
        ≡ record { database = db; error = error }
  unfolding catch_error
  returned_run db none h = refl
  returned_run db (some e) h = ground (arith, h)

  -- After the approval of what was detected the upload completes: where the batch is approved with
  -- the report of an earlier detection, no client, account or goal was deleted since, the file is
  -- read again with the same transactions, none of which lacks a required field, the columns take
  -- the values of each and of each new account, and each names a fund that exists, the resumed run
  -- returns, completes the batch and creates a row for every transaction, where the unique keys of
  -- the table let it.
  pub resume_processing-Completes :
      (file_path : Text) (old db : Database)
      → Grown old db
      → setting.parse_file file_path ≡ returned ts
      → all (λ t. not (is_rejected setting.validation setting.clock t)) ts ≡ true
      → all (has_fund db) ts ≡ true
      → all fits_columns ts ≡ true
      → all fits_account (detect_new_entities old ts).accounts ≡ true
      → HasBatch id (Approved old) db
      → Completes id ts db.fund_transactions (resume_processing setting id file_path db)
  unfolding resume_processing
  resume_processing-Completes file_path old db grown read clean funds fit accounts
        (b, at_id, (approves, reported)) =
      let report = detect_new_entities old ts in
      let after = added_entities setting.new_id report db in
      let (batches, same_funds, transactions) = added_entities-Keeps setting.new_id report db in
      let run = finalize_processing setting id ts after in
      let invalid = none_invalid setting ts clean in
      let known =
        all-and (has_entities after) (has_fund after) ts
          (added_entities-has_entities setting.new_id old db ts grown)
          (ap (λ fs. all (λ t. includes (map fund_code fs) t.fund_code) ts) same_funds ∙ funds) in
      let (ends, there, saved) =
        finalize_processing-Completes after (b, ap (get_batch id) batches ∙ at_id, tt) known fit in
      let same =
        ap (catch_error setting id)
          (resume_body-same file_path db b report at_id approves reported read invalid accounts)
        ∙ returned_run run.database run.error ends in
      let (rs, listed, created) = saved in
      rw same (
        ends,
        there,
        (
          rs,
          listed,
          created ∙ ap (λ table. create_many table (map (stored_row id) rs)) transactions,
        ),
      )
