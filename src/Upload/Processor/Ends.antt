-- ===== src/Upload/Processor/Ends.antt =====
-- How a run ends: the status of its batch against what it throws.
use xeno_reconciliation.Prelude.{
  ℕ, ◌<◌, ◌≡◌, refl, sym, ap, ◌∙◌, ◌⊎◌, inl, inr, true, false, Option, none, some, List, [], ◌∷◌,
  Bool-cases, Option-cases, arith, length, filter_by, ltb,
}
use xeno_reconciliation.Prelude.Text.{Text}
use xeno_reconciliation.Validation.Types.{
  ParsedFundTransaction, TransactionValidationError, is_critical,
}
use xeno_reconciliation.Validation.Batch.{BatchValidation, validate_batch}
use xeno_reconciliation.Validation.GoalGroups.{validate_goal_transaction_groups}
use xeno_reconciliation.Upload.Records.{
  completed, waiting_for_approval, failed, ProcessingError, Result, returned, thrown, UploadBatch,
  Database, Run, and_then, fail_with,
}
use xeno_reconciliation.Upload.Batches.{
  get_batch, update_batch, update_batch_status, update_batch_with_parsing_results,
  update_batch_with_validation_results, update_batch_with_new_entities,
  update_batch_with_final_results, update_batch_with_error,
}
use xeno_reconciliation.Upload.Batches.Laws.{HasBatch, KeepsId, update_batch-HasBatch}
use xeno_reconciliation.Upload.Detector.{detect_new_entities, has_new_entities}
use xeno_reconciliation.Upload.Repository.{save_transactions, save_invalid_transactions}
use xeno_reconciliation.Upload.Repository.Slices.{save_transactions-cases, Result-cases}
use xeno_reconciliation.Upload.Processor.{
  Setting, keeps_details, finalize_processing, detect_and_save, check_groups, check_transactions,
  validate_and_save, parse_and_save, catch_error, process_file,
}

abbrev pub IsDone : UploadBatch → Type 0
IsDone b = (b.processing_status ≡ completed) ⊎ (b.processing_status ≡ waiting_for_approval)

abbrev pub HasFailed : UploadBatch → Type 0
HasFailed b = b.processing_status ≡ failed

abbrev pub Exists : UploadBatch → Type 0
Exists b = Unit

-- What the body of a run leaves to the `catch` block.
abbrev pub Leaves : Text → Run → Type 0
Leaves id run = elim run.error [
  | none ↦ HasBatch id IsDone run.database
  | some e ↦ HasBatch id (λ b. keeps_details e ≡ true → HasFailed b) run.database
]

-- A run that returns leaves its batch completed or waiting, and one that throws leaves it failed.
abbrev pub Settled : Text → Run → Type 0
Settled id run = elim run.error [
  | none ↦ HasBatch id IsDone run.database
  | some e ↦ HasBatch id HasFailed run.database
]

module _ (id : Text) (change : UploadBatch → UploadBatch) (keeps : KeepsId change) where
  -- An update, then what follows it.
  pub and_then-HasBatch :
      (P : UploadBatch → Type 0) (Q : Run → Type 0) (rest : Database → Run) (db : Database)
      → HasBatch id (λ b. P (change b)) db
      → ((after : Database) → HasBatch id P after → Q (rest after))
      → Q (and_then (update_batch id change db) rest)
  and_then-HasBatch P Q rest db before next =
      let (e, after) = update_batch-HasBatch id change keeps P db before in
      rw e (next (update_batch id change db).database after)

  -- An update at the end.
  pub update_batch-Leaves :
      (db : Database)
      → HasBatch id (λ b. IsDone (change b)) db
      → Leaves id (update_batch id change db)
  update_batch-Leaves db before =
      let (e, after) = update_batch-HasBatch id change keeps IsDone db before in rw e after

module _ (setting : Setting) (id : Text) where
  caught :
      (db : Database) (error : Option ProcessingError)
      → Leaves id (record { database = db; error = error })
      → Settled id (catch_error setting id (record { database = db; error = error }))
  unfolding catch_error update_batch_with_error
  caught db none h = h
  caught db (some e) (b, at_id, p) = elim (Bool-cases (keeps_details e)) [
    | inl kept ↦ rw (catch_error, kept) (b, at_id, p kept)
    | inr lost ↦
        rw (catch_error, lost)
          (and_then-HasBatch id _ (λ c. refl) HasFailed (Settled id) (fail_with e) db
            (b, at_id, refl) (λ after there. there))
  ]

  -- An error that leaves no details is written to the batch.
  pub catch_error-Settled : (run : Run) → Leaves id run → Settled id (catch_error setting id run)
  catch_error-Settled run h = caught run.database run.error h

-- What is thrown by the saving of transactions leaves no details.
pub save_transactions-thrown :
    (size : ℕ) (id : Text) (ts : List ParsedFundTransaction) (db : Database) (e : ProcessingError)
    → 0 < size
    → save_transactions size id ts db ≡ thrown e
    → keeps_details e ≡ false
unfolding keeps_details
save_transactions-thrown size id ts db e positive h =
    elim (save_transactions-cases size id ts db positive) [
      | inl (rs, fit, k) ↦ absurd (clash (sym k ∙ h))
      | inr (error, k, why) ↦
          let same : error ≡ e = injective (sym k ∙ h) in
          elim why [
            | inl (row, missing) ↦ rw (sym same ∙ missing) refl
            | inr unfit ↦ rw (sym same ∙ unfit) refl
          ]
    ]
  where
    clash : {p : Database × ℕ} → ◌≡◌ {A = Result (Database × ℕ)} (returned p) (thrown e) → ⊥
    clash k = cc

    injective :
        {p q : ProcessingError} → ◌≡◌ {A = Result (Database × ℕ)} (thrown p) (thrown q) → p ≡ q
    injective k = cc

-- The saving of transactions changes no batch.
pub save_transactions-batches :
    (size : ℕ) (id : Text) (ts : List ParsedFundTransaction) (db after : Database) (n : ℕ)
    → save_transactions size id ts db ≡ returned (after, n)
    → after.batches ≡ db.batches
unfolding save_transactions
save_transactions-batches size id ts db after n h = ground (arith, h)

module _ (setting : Setting) (id : Text) (positive : 0 < setting.batch_insert_size) where
  pub finalize_processing-Leaves :
      (ts : List ParsedFundTransaction) (db : Database)
      → HasBatch id Exists db
      → Leaves id (finalize_processing setting id ts db)
  unfolding finalize_processing update_batch_with_final_results
  finalize_processing-Leaves ts db (b, at_id, _) =
      elim (Result-cases (save_transactions setting.batch_insert_size id ts db)) [
        | inl ((after, n), e) ↦
            rw (finalize_processing, e)
              (update_batch-Leaves id _ (λ c. refl) after
                (
                  b,
                  ap (get_batch id) (save_transactions-batches _ id ts db after n e) ∙ at_id,
                  inl refl,
                ))
        | inr (error, e) ↦
            let lost = save_transactions-thrown _ id ts db error positive e in
            rw (finalize_processing, e) (b, at_id, λ kept. ground (arith, kept, lost))
      ]

  pub detect_and_save-Leaves :
      (ts : List ParsedFundTransaction) (db : Database)
      → HasBatch id Exists db
      → Leaves id (detect_and_save setting id ts db)
  unfolding detect_and_save update_batch_with_new_entities
  detect_and_save-Leaves ts db (b, at_id, _) =
      elim (Bool-cases (has_new_entities (detect_new_entities db ts))) [
        | inl found ↦
            rw (detect_and_save, found)
              (update_batch-Leaves id _ (λ c. refl) db (b, at_id, inr refl))
        | inr none_found ↦
            rw (detect_and_save, none_found) (finalize_processing-Leaves ts db (b, at_id, tt))
      ]

  -- A failed status, then the error.
  fail-Leaves :
      (e : ProcessingError) (db : Database)
      → HasBatch id Exists db
      → Leaves id (and_then (update_batch_status setting.ended id failed none db) (fail_with e))
  unfolding update_batch_status
  fail-Leaves e db (b, at_id, _) =
      and_then-HasBatch id _ (λ c. refl) HasFailed (Leaves id) (fail_with e) db (b, at_id, refl)
        (λ after (c, there, failed_c). (c, there, λ kept. failed_c))

  pub check_groups-Leaves :
      (ts : List ParsedFundTransaction) (group_errors : List TransactionValidationError)
      (db : Database)
      → HasBatch id Exists db
      → Leaves id (check_groups setting id ts group_errors db)
  unfolding check_groups
  check_groups-Leaves ts group_errors db (b, at_id, _) =
      elim (Bool-cases (ltb 0 (length (filter_by is_critical group_errors)))) [
        | inl found ↦ rw (check_groups, found, at_id) (fail-Leaves _ db (b, at_id, tt))
        | inr none_found ↦
            rw (check_groups, none_found) (detect_and_save-Leaves ts db (b, at_id, tt))
      ]

  pub check_transactions-Leaves :
      (transactions : List ParsedFundTransaction) (result : BatchValidation)
      (group_errors : List TransactionValidationError) (db : Database)
      → HasBatch id Exists db
      → Leaves id (check_transactions setting id transactions result group_errors db)
  unfolding check_transactions save_invalid_transactions
  check_transactions-Leaves transactions result group_errors db (b, at_id, _) =
      elim (Bool-cases (ltb 0 (length result.invalid_transactions))) [
        | inl found ↦
            rw (check_transactions, found)
              (fail-Leaves _ (save_invalid_transactions id result.invalid_transactions db)
                (b, at_id, tt))
        | inr none_found ↦
            rw (check_transactions, none_found)
              (check_groups-Leaves result.valid_transactions group_errors db (b, at_id, tt))
      ]

  pub validate_and_save-Leaves :
      (ts : List ParsedFundTransaction) (db : Database)
      → HasBatch id Exists db
      → Leaves id (validate_and_save setting id ts db)
  unfolding validate_and_save update_batch_with_validation_results keeps_details
  validate_and_save-Leaves ts db (b, at_id, _) =
      let result = validate_batch setting.validation setting.clock ts in
      elim (Option-cases (validate_goal_transaction_groups result.valid_transactions)) [
        | inl e ↦ rw (validate_and_save, e) (b, at_id, λ kept. ground (arith, kept))
        | inr (group_errors, e) ↦
            rw (validate_and_save, e)
              (and_then-HasBatch id _ (λ c. refl) Exists (Leaves id)
                (check_transactions setting id ts result group_errors) db (b, at_id, tt)
                (check_transactions-Leaves ts result group_errors))
      ]

  pub parse_and_save-Leaves :
      (file_path : Text) (db : Database)
      → ((e : ProcessingError) → setting.parse_file file_path ≡ thrown e → keeps_details e ≡ false)
      → HasBatch id Exists db
      → Leaves id (parse_and_save setting id file_path db)
  unfolding parse_and_save update_batch_with_parsing_results keeps_details
  parse_and_save-Leaves file_path db plain (b, at_id, _) =
      elim (Result-cases (setting.parse_file file_path)) [
        | inl ([], e) ↦ rw (parse_and_save, e) (b, at_id, λ kept. ground (arith, kept))
        | inl (t ∷ ts, e) ↦
            rw (parse_and_save, e)
              (and_then-HasBatch id _ (λ c. refl) Exists (Leaves id)
                (validate_and_save setting id (t ∷ ts)) db (b, at_id, tt)
                (validate_and_save-Leaves (t ∷ ts)))
        | inr (error, e) ↦
            rw (parse_and_save, e) (b, at_id, λ kept. ground (arith, kept, plain error e))
      ]

  -- Where slices have a size above 0, and no error of the parser holds the words that keep the
  -- details of a failed group validation, a run on a batch that exists leaves it with a settled
  -- status: where the run returns, the batch is completed or waits for the approval of new entities,
  -- and where it throws, the batch has failed.
  pub process_file-Settled :
      (file_path : Text) (db : Database)
      → ((e : ProcessingError) → setting.parse_file file_path ≡ thrown e → keeps_details e ≡ false)
      → HasBatch id Exists db
      → Settled id (process_file setting id file_path db)
  unfolding process_file update_batch_status
  process_file-Settled file_path db plain (b, at_id, _) = catch_error-Settled setting id _ (
      and_then-HasBatch id _ (λ c. refl) Exists (Leaves id) (parse_and_save setting id file_path) db
        (b, at_id, tt) (λ after. parse_and_save-Leaves file_path after plain))
