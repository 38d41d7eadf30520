-- ===== src/Upload/Processor/AllOrNothing.antt =====
-- A file is saved as a whole or not at all.
use xeno_reconciliation.Prelude.{
  ◌<◌, refl, ap, inl, inr, Option, none, some, List, [], ◌∷◌, map, Bool-cases, Option-cases, length,
  filter_by, ltb, any,
}
use xeno_reconciliation.Prelude.Text.{Text}
use xeno_reconciliation.Validation.Types.{
  ParsedFundTransaction, TransactionValidationError, is_critical,
}
use xeno_reconciliation.Validation.Batch.{validate_batch}
use xeno_reconciliation.Validation.GoalGroups.{validate_goal_transaction_groups}
use xeno_reconciliation.Upload.Records.{
  failed, parsing, StoredTransaction, ProcessingError, returned, thrown, Database, and_then,
  fail_with,
}
use xeno_reconciliation.Upload.Batches.{
  is_batch, update_batch, update_batch_status, update_batch_with_parsing_results,
  update_batch_with_validation_results, update_batch_with_new_entities,
  update_batch_with_final_results, update_batch_with_error,
}
use xeno_reconciliation.Upload.Batches.Laws.{HasBatch}
use xeno_reconciliation.Upload.Detector.{detect_new_entities, has_new_entities}
use xeno_reconciliation.Upload.Repository.{
  stored_row, create_many, save_invalid_transactions, resolve_all,
}
use xeno_reconciliation.Upload.Repository.Resolve.{all_references}
use xeno_reconciliation.Upload.Repository.Slices.{
  checked-returned, save_transactions-cases, Result-cases,
}
use xeno_reconciliation.Upload.Repository.Known.{resolve_all-transactions}
use xeno_reconciliation.Upload.Processor.{
  Setting, keeps_details, finalize_processing, detect_and_save, check_groups, check_transactions,
  validate_and_save, parse_and_save, catch_error, process_file,
}
use xeno_reconciliation.Upload.Processor.Ends.{Exists}
use xeno_reconciliation.Upload.Processor.Untouched.{
  AllOrNothing, Untouched, nothing_rejected, update_batch-AllOrNothing, and_then-Untouched,
}

module _ (setting : Setting) (id : Text) (ts : List ParsedFundTransaction)
    (before : List StoredTransaction) where
  caught :
      (db : Database) (error : Option ProcessingError)
      → AllOrNothing id ts before (record { database = db; error = error })
      → AllOrNothing id ts before (catch_error setting id (record { database = db; error = error }))
  unfolding catch_error update_batch_with_error update_batch
  caught db none h = h
  caught db (some e) h = elim (Bool-cases (keeps_details e)) [
    | inl kept ↦ rw (catch_error, kept) h
    | inr lost ↦ elim (Bool-cases (any (is_batch id) db.batches)) [
      | inl k ↦ rw (catch_error, lost, update_batch_with_error, update_batch, k) h
      | inr k ↦ rw (catch_error, lost, update_batch_with_error, update_batch, k) h
    ]
  ]

  module _ (positive : 0 < setting.batch_insert_size) where
    finalize_processing-AllOrNothing :
        (db : Database)
        → Untouched id before db
        → AllOrNothing id ts before (finalize_processing setting id ts db)
    unfolding finalize_processing update_batch_with_final_results
    finalize_processing-AllOrNothing db ((b, at_id, _), same) =
        elim (save_transactions-cases setting.batch_insert_size id ts db positive) [
          | inr (error, e, why) ↦ rw (finalize_processing, e) same
          | inl (rs, fit, e) ↦
              rw (finalize_processing, e)
                (update_batch-AllOrNothing id _ (λ c. refl) ts before _
                  (
                    b,
                    at_id,
                    inr (
                      refl,
                      (
                        rs,
                        resolve_all-transactions (all_references db) ts rs
                            (checked-returned (resolve_all (all_references db) ts) rs fit),
                        ap (λ table. create_many table (map (stored_row id) rs)) same,
                      ),
                    ),
                  ))
        ]

    detect_and_save-AllOrNothing :
        (db : Database)
        → Untouched id before db
        → AllOrNothing id ts before (detect_and_save setting id ts db)
    unfolding detect_and_save update_batch_with_new_entities
    detect_and_save-AllOrNothing db ((b, at_id, _), same) =
        elim (Bool-cases (has_new_entities (detect_new_entities db ts))) [
          | inl found ↦
              rw (detect_and_save, found)
                (update_batch-AllOrNothing id _ (λ c. refl) ts before db
                  (b, at_id, inl (refl, same)))
          | inr none_found ↦
              rw (detect_and_save, none_found)
                (finalize_processing-AllOrNothing db ((b, at_id, tt), same))
        ]

    fail-AllOrNothing :
        (e : ProcessingError) (db : Database)
        → Untouched id before db
        → AllOrNothing id ts before
            (and_then (update_batch_status setting.ended id failed none db) (fail_with e))
    unfolding update_batch_status
    fail-AllOrNothing e db untouched =
        and_then-Untouched id _ (λ c. refl) before (AllOrNothing id ts before) (fail_with e) db
          untouched (λ after (there, same). same)

    check_groups-AllOrNothing :
        (group_errors : List TransactionValidationError) (db : Database)
        → Untouched id before db
        → AllOrNothing id ts before (check_groups setting id ts group_errors db)
    unfolding check_groups
    check_groups-AllOrNothing group_errors db ((b, at_id, _), same) =
        elim (Bool-cases (ltb 0 (length (filter_by is_critical group_errors)))) [
          | inl found ↦
              rw (check_groups, found, at_id) (fail-AllOrNothing _ db ((b, at_id, tt), same))
          | inr none_found ↦
              rw (check_groups, none_found) (detect_and_save-AllOrNothing db ((b, at_id, tt), same))
        ]

module _ (setting : Setting) (id : Text) (before : List StoredTransaction)
    (positive : 0 < setting.batch_insert_size) where
  check_transactions-AllOrNothing :
      (ts : List ParsedFundTransaction) (group_errors : List TransactionValidationError)
      (db : Database)
      → Untouched id before db
      → AllOrNothing id ts before (
          check_transactions setting id ts
            (validate_batch setting.validation setting.clock ts)
            group_errors
            db)
  unfolding check_transactions save_invalid_transactions
  check_transactions-AllOrNothing ts group_errors db ((b, at_id, _), same) =
      let result = validate_batch setting.validation setting.clock ts in
      elim (Bool-cases (ltb 0 (length result.invalid_transactions))) [
        | inl found ↦
            rw (check_transactions, found)
              (fail-AllOrNothing setting id ts before positive _
                (save_invalid_transactions id result.invalid_transactions db)
                ((b, at_id, tt), same))
        | inr none_found ↦
            rw (check_transactions, none_found, nothing_rejected setting ts none_found)
              (check_groups-AllOrNothing setting id ts before positive group_errors db
                ((b, at_id, tt), same))
      ]

  validate_and_save-AllOrNothing :
      (ts : List ParsedFundTransaction) (db : Database)
      → Untouched id before db
      → AllOrNothing id ts before (validate_and_save setting id ts db)
  unfolding validate_and_save update_batch_with_validation_results
  validate_and_save-AllOrNothing ts db (there, same) =
      let result = validate_batch setting.validation setting.clock ts in
      elim (Option-cases (validate_goal_transaction_groups result.valid_transactions)) [
        | inl e ↦ rw (validate_and_save, e) same
        | inr (group_errors, e) ↦
            rw (validate_and_save, e)
              (and_then-Untouched id _ (λ c. refl) before (AllOrNothing id ts before)
                (check_transactions setting id ts result group_errors) db (there, same)
                (check_transactions-AllOrNothing ts group_errors))
      ]

-- The transactions that the parser reads from a file; none where it throws.
abbrev pub parsed : Setting → Text → List ParsedFundTransaction
parsed setting file_path = elim (setting.parse_file file_path) [ returned ts ↦ ts | thrown e ↦ [] ]

parse_and_save-AllOrNothing :
    (setting : Setting) (id file_path : Text) (before : List StoredTransaction) (db : Database)
    → 0 < setting.batch_insert_size
    → Untouched id before db
    → AllOrNothing id (parsed setting file_path) before (parse_and_save setting id file_path db)
unfolding parse_and_save update_batch_with_parsing_results
parse_and_save-AllOrNothing setting id file_path before db positive (there, same) =
    elim (Result-cases (setting.parse_file file_path)) [
      | inl ([], e) ↦ rw (parse_and_save, parsed, e) same
      | inl (t ∷ ts, e) ↦
          rw (parse_and_save, parsed, e)
            (and_then-Untouched id _ (λ c. refl) before (AllOrNothing id (t ∷ ts) before)
              (validate_and_save setting id (t ∷ ts)) db (there, same)
              (validate_and_save-AllOrNothing setting id before positive (t ∷ ts)))
      | inr (error, e) ↦ rw (parse_and_save, parsed, e) same
    ]

-- There are no partial uploads: a run on a batch that exists which throws, or leaves the batch
-- waiting for approval, leaves the table of transactions as it was; any other run completes the
-- batch, and has created a row for every transaction that was parsed, in their order, where the
-- unique keys of the table let it.
pub process_file-AllOrNothing :
    (setting : Setting) (id file_path : Text) (db : Database)
    → 0 < setting.batch_insert_size
    → HasBatch id Exists db
    → AllOrNothing id
        (parsed setting file_path)
        db.fund_transactions
        (process_file setting id file_path db)
unfolding process_file update_batch_status
process_file-AllOrNothing setting id file_path db positive there =
    let ts = parsed setting file_path in
    let run =
      and_then (update_batch_status setting.started id parsing none db)
        (parse_and_save setting id file_path) in
    caught setting id ts db.fund_transactions run.database run.error (
      and_then-Untouched id _ (λ c. refl) db.fund_transactions
        (AllOrNothing id ts db.fund_transactions) (parse_and_save setting id file_path) db
        (there, refl)
        (λ after untouched.
          parse_and_save-AllOrNothing setting id file_path db.fund_transactions after positive
            untouched))
