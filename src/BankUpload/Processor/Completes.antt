-- ===== src/BankUpload/Processor/Completes.antt =====
-- A bank file without critical errors is saved.
use xeno_reconciliation.Prelude.{true}
use xeno_reconciliation.BankUpload.Repository.{fits_bank_columns}
use xeno_reconciliation.Prelude.{Bool}
use xeno_reconciliation.Prelude.{
  all, ◌&&◌, ℕ, suc, ◌+◌, ◌≡◌, refl, sym, ◌∙◌, false, Option, none, some, List, [], ◌∷◌, inl, inr,
  nat_eq, list_eq, length, length-append, ltb, Bool-cases, arith, All,
}
use xeno_reconciliation.Prelude.Text.{Text}
use xeno_reconciliation.Upload.Records.{
  Account, Goal, parsing, validating, completed, ProcessingError, returned, Database,
}
use xeno_reconciliation.BankUpload.Types.{ParsedBankTransaction, Locale}
use xeno_reconciliation.BankUpload.Validator.{
  Lookups, BankValidation, bank_errors_of, critical_errors, sort_bank, validate_bank_from,
  validate_bank_batch, lookups, empty_validation,
}
use xeno_reconciliation.BankUpload.Validator.Known.{IsKnown, validate_bank_batch-IsKnown}
use xeno_reconciliation.BankUpload.Repository.Saves.{Known, save_bank_transactions-Known}
use xeno_reconciliation.BankUpload.Batches.{
  BankUploadBatch, BankDatabase, BankRun, bank_then, set_bank_status, bank_parsing_results,
  update_bank_batch, HasBankBatch, update_bank_batch-HasBankBatch,
}
use xeno_reconciliation.BankUpload.Processor.{
  BankSetting, finalize_bank_processing, check_bank_transactions, validate_and_save_bank,
  parse_and_save_bank, catch_bank_error, process_bank_file,
}

module _ (locale : Locale) (found : Lookups) where
  abbrev count : BankValidation → ℕ
  count result = length result.valid_transactions + length result.invalid_transactions

  count-sort_bank :
      (result : BankValidation) (t : ParsedBankTransaction)
      → count (sort_bank locale found result t) ≡ suc (count result)
  unfolding sort_bank
  count-sort_bank result t =
      elim (Bool-cases (ltb 0 (length (critical_errors (bank_errors_of locale found t))))) [
        | inl bad ↦
            rw (sort_bank, bad) (omega (arith, length-append result.invalid_transactions (_ ∷ [])))
        | inr fine ↦
            rw (sort_bank, fine) (omega (arith, length-append result.valid_transactions (_ ∷ [])))
      ]

  count-validate_bank_from :
      (result : BankValidation) (ts : List ParsedBankTransaction)
      → count (validate_bank_from locale found result ts) ≡ count result + length ts
  unfolding validate_bank_from
  count-validate_bank_from result [] = omega arith
  count-validate_bank_from result (t ∷ ts) = omega (
    arith,
    count-validate_bank_from (sort_bank locale found result t) ts,
    count-sort_bank result t,
  )

all_valid :
    (locale : Locale) (accounts : List Account) (goals : List Goal)
    (ts : List ParsedBankTransaction)
    → ltb 0 (length (validate_bank_batch locale accounts goals ts).invalid_transactions) ≡ false
    → length (validate_bank_batch locale accounts goals ts).valid_transactions ≡ length ts
unfolding validate_bank_batch
all_valid locale accounts goals ts clean = ground (
  arith,
  clean,
  count-validate_bank_from locale (lookups locale accounts goals ts) empty_validation ts,
)

abbrev pub Exists : BankUploadBatch → Type 0
Exists b = Unit

-- The validation finds no transaction invalid, and the columns take the values of those it lets
-- through.
abbrev IsClean : Locale → Database → List ParsedBankTransaction → Type 0
IsClean locale tables ts =
    let result = validate_bank_batch locale tables.accounts tables.goals ts in
    (ltb 0 (length result.invalid_transactions) ≡ false)
    × (all fits_bank_columns result.valid_transactions ≡ true)

still-IsClean :
    (locale : Locale) (ts : List ParsedBankTransaction) (old new : Database)
    → old ≡ new
    → IsClean locale old ts
    → IsClean locale new ts
still-IsClean locale ts old new same clean = rw⁻¹ same clean

split_true : (p q : Bool) → p && q ≡ true → (p ≡ true) × (q ≡ true)
split_true p q h = ground (arith, h)

Known-fits_bank_columns :
    (id : Text) (tables : Database) (us : List ParsedBankTransaction)
    → All (IsKnown tables.accounts tables.goals) us
    → all fits_bank_columns us ≡ true
    → All (Known tables id) us
Known-fits_bank_columns id tables [] known fit = tt
Known-fits_bank_columns id tables (u ∷ us) (here, known) fit =
    let (fit_here, later) = split_true (fits_bank_columns u) (all fits_bank_columns us) fit in
    ((here, fit_here), Known-fits_bank_columns id tables us known later)

-- A run that returns, with its batch completed and the number of transactions in it.
abbrev pub BankCompletes : Text → ℕ → BankRun → Type 0
BankCompletes id n run =
    (run.error ≡ none)
    × HasBankBatch id (λ b. (b.processing_status ≡ completed) × (b.processed_records ≡ n))
        run.database

module _ (id : Text) (change : BankUploadBatch → BankUploadBatch)
    (keeps : (b : BankUploadBatch) → (change b).id ≡ b.id) where
  bank_then-Exists :
      (Q : BankRun → Type 0) (rest : BankDatabase → BankRun) (db : BankDatabase)
      → HasBankBatch id Exists db
      → ((after : BankDatabase)
          → HasBankBatch id Exists after
          → after.tables ≡ db.tables
          → Q (rest after))
      → Q (bank_then (update_bank_batch id change db) rest)
  bank_then-Exists Q rest db there next =
      let (e, after, same) = update_bank_batch-HasBankBatch id change keeps Exists db there in
      rw e (next (update_bank_batch id change db).database after same)

module _ (setting : BankSetting) (id : Text) where
  renumber : (m n : ℕ) (run : BankRun) → m ≡ n → BankCompletes id m run → BankCompletes id n run
  renumber m n run same (ends, (b, at_id, (status, number))) =
      (ends, (b, at_id, (status, number ∙ same)))

  finalize_bank_processing-BankCompletes :
      (ts : List ParsedBankTransaction) (db : BankDatabase)
      → HasBankBatch id Exists db
      → All (Known db.tables id) ts
      → BankCompletes id (length ts) (finalize_bank_processing setting id ts db)
  unfolding finalize_bank_processing
  finalize_bank_processing-BankCompletes ts db (b, at_id, _) known =
      let (after, saved) = save_bank_transactions-Known db.tables id ts known in
      let (ends, there, same) =
        update_bank_batch-HasBankBatch id _ (λ c. refl)
          (λ c. (c.processing_status ≡ completed) × (c.processed_records ≡ length ts))
          (record db { tables = after }) (b, at_id, (refl, refl)) in
      rw (finalize_bank_processing, saved) (ends, there)

  check_bank_transactions-BankCompletes :
      (ts : List ParsedBankTransaction) (result : BankValidation) (db : BankDatabase)
      → HasBankBatch id Exists db
      → ltb 0 (length result.invalid_transactions) ≡ false
      → All (Known db.tables id) result.valid_transactions
      → BankCompletes id
          (length result.valid_transactions)
          (check_bank_transactions setting id ts result db)
  unfolding check_bank_transactions
  check_bank_transactions-BankCompletes ts result db there clean known =
      rw (check_bank_transactions, clean)
        (finalize_bank_processing-BankCompletes result.valid_transactions db there known)

  validate_and_save_bank-BankCompletes :
      (ts : List ParsedBankTransaction) (db : BankDatabase)
      → HasBankBatch id Exists db
      → IsClean setting.locale db.tables ts
      → BankCompletes id (length ts) (validate_and_save_bank setting id ts db)
  unfolding validate_and_save_bank
  validate_and_save_bank-BankCompletes ts db there (clean, fit) =
      let result = validate_bank_batch setting.locale db.tables.accounts db.tables.goals ts in
      let known =
        validate_bank_batch-IsKnown setting.locale db.tables.accounts db.tables.goals ts in
      bank_then-Exists id _ (λ c. refl) (BankCompletes id (length ts))
        (check_bank_transactions setting id ts result) db there
        (λ after after_there same.
          renumber (length result.valid_transactions) (length ts)
            (check_bank_transactions setting id ts result after)
            (all_valid setting.locale db.tables.accounts db.tables.goals ts clean)
            (check_bank_transactions-BankCompletes ts result after after_there clean (
              moved db.tables after.tables result.valid_transactions (sym same)
                (Known-fits_bank_columns id db.tables result.valid_transactions known fit))))
    where
      moved :
          (old new : Database) (us : List ParsedBankTransaction)
          → old ≡ new
          → All (Known old id) us
          → All (Known new id) us
      moved old new us same known = rw⁻¹ same known

  returned_bank_run :
      (db : BankDatabase) (error : Option ProcessingError)
      → error ≡ none
      → catch_bank_error setting id (record { database = db; error = error })
        ≡ record { database = db; error = error }
  unfolding catch_bank_error
  returned_bank_run db none h = refl
  returned_bank_run db (some e) h = ground (arith, h)

  parse_and_save_bank-BankCompletes :
      (file_path : Text) (t : ParsedBankTransaction) (ts : List ParsedBankTransaction)
      (db : BankDatabase)
      → HasBankBatch id Exists db
      → setting.parse_bank_file file_path ≡ returned (t ∷ ts)
      → IsClean setting.locale db.tables (t ∷ ts)
      → BankCompletes id (length (t ∷ ts)) (parse_and_save_bank setting id file_path db)
  unfolding parse_and_save_bank
  parse_and_save_bank-BankCompletes file_path t ts db there read clean =
      rw (parse_and_save_bank, read)
        (bank_then-Exists id (bank_parsing_results (length (t ∷ ts))) (λ c. refl)
          (BankCompletes id (length (t ∷ ts)))
          (λ after.
            bank_then (update_bank_batch id (set_bank_status setting.started validating) after)
              (validate_and_save_bank setting id (t ∷ ts)))
          db there
          (λ second second_there second_same.
            bank_then-Exists id (set_bank_status setting.started validating) (λ c. refl)
              (BankCompletes id (length (t ∷ ts))) (validate_and_save_bank setting id (t ∷ ts))
              second second_there
              (λ third third_there third_same.
                validate_and_save_bank-BankCompletes (t ∷ ts) third third_there (
                  still-IsClean setting.locale (t ∷ ts) db.tables third.tables
                    (sym (third_same ∙ second_same)) clean))))

  -- A bank file without critical errors is saved: where the batch exists, the parser reads at least
  -- one transaction, the validation finds none of them invalid against the accounts and goals there
  -- are, and the columns take the values of those it lets through, the run returns, and completes the
  -- batch with the number of all transactions. That an account or a goal is not found at the saving
  -- does not happen.
  pub process_bank_file-BankCompletes :
      (file_path : Text) (t : ParsedBankTransaction) (ts : List ParsedBankTransaction)
      (db : BankDatabase)
      → HasBankBatch id Exists db
      → setting.parse_bank_file file_path ≡ returned (t ∷ ts)
      → ltb 0 (
          length
            (validate_bank_batch setting.locale db.tables.accounts db.tables.goals
              (t ∷ ts)).invalid_transactions)
        ≡ false
      → all fits_bank_columns
          (validate_bank_batch setting.locale db.tables.accounts db.tables.goals
            (t ∷ ts)).valid_transactions
        ≡ true
      → BankCompletes id (length (t ∷ ts)) (process_bank_file setting id file_path db)
  unfolding process_bank_file
  process_bank_file-BankCompletes file_path t ts db there read clean fit =
      let run =
        bank_then (update_bank_batch id (set_bank_status setting.started parsing) db)
          (parse_and_save_bank setting id file_path) in
      let (ends, done) =
        bank_then-Exists id (set_bank_status setting.started parsing) (λ c. refl)
          (BankCompletes id (length (t ∷ ts))) (parse_and_save_bank setting id file_path) db there
          (λ after after_there same.
            parse_and_save_bank-BankCompletes file_path t ts after after_there read (
              still-IsClean setting.locale (t ∷ ts) db.tables after.tables (sym same)
                (clean, fit))) in
      let same : process_bank_file setting id file_path db ≡ run =
        returned_bank_run run.database run.error ends in
      rw same (ends, done)
