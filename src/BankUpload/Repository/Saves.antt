-- ===== src/BankUpload/Repository/Saves.antt =====
-- Transactions whose accounts and goals have rows are saved.
use xeno_reconciliation.Prelude.{all}
use xeno_reconciliation.Prelude.{
  ℕ, zero, suc, ◌+◌, ◌≤◌, ◌<◌, ◌≡◌, refl, ap, ◌∙◌, true, Option, none, some, List, [], ◌∷◌, map,
  nat_eq, list_eq, includes, length, take, drop, arith, All,
}
use xeno_reconciliation.Prelude.Text.{Text}
use xeno_reconciliation.Upload.Records.{Goal, BankGoalTransaction, returned, Database}
use xeno_reconciliation.Upload.Detector.{goal_number}
use xeno_reconciliation.Upload.Creator.{find_account}
use xeno_reconciliation.Upload.Creator.Laws.{find_account-includes}
use xeno_reconciliation.Upload.Repository.Known.{is_there}
use xeno_reconciliation.Upload.Repository.Slices.{length-drop, length-take-drop}
use xeno_reconciliation.BankUpload.Types.{ParsedBankTransaction}
use xeno_reconciliation.BankUpload.Validator.Known.{IsKnown}
use xeno_reconciliation.BankUpload.Repository.{
  find_goal, bank_row, row_of, one_more, prepare_rows, create_bank_rows, bank_batch_size,
  fits_bank_columns, save_bank_slices, save_bank_transactions,
}

find_goal-includes :
    (n : Text) (rows : List Goal) → is_there (find_goal n rows) ≡ includes (map goal_number rows) n
unfolding find_goal
find_goal-includes n [] = refl
find_goal-includes n (g ∷ rows) = ground (arith, find_goal-includes n rows)

is_there-some {ℓ} : {A : Type ℓ} (o : Option A) → is_there o ≡ true → (a : A) × (o ≡ some a)
is_there-some none h = ground (arith, h)
is_there-some (some a) h = (a, refl)

module _ (db : Database) (batch_id : Text) where
  abbrev pub Known : ParsedBankTransaction → Type 0
  Known t = IsKnown db.accounts db.goals t × (fits_bank_columns t ≡ true)

  Known-fits : (ts : List ParsedBankTransaction) → All Known ts → all fits_bank_columns ts ≡ true
  Known-fits [] known = refl
  Known-fits (t ∷ ts) ((there, fit), known) = rw (fit, Known-fits ts known) refl

  prepare_rows-Known :
      (ts : List ParsedBankTransaction)
      → All Known ts
      → (rows : List BankGoalTransaction) × (prepare_rows db batch_id ts ≡ returned rows)
        × (length rows ≡ length ts)
  unfolding prepare_rows
  prepare_rows-Known [] known = ([], refl, refl)
  prepare_rows-Known (t ∷ ts) (((account_there, goal_there), fit), known) =
      let (account, e) =
        is_there-some (find_account t.account_number db.accounts)
          (find_account-includes t.account_number db.accounts ∙ account_there) in
      let (goal, k) =
        is_there-some (find_goal t.goal_number db.goals)
          (find_goal-includes t.goal_number db.goals ∙ goal_there) in
      let (rows, done, same) = prepare_rows-Known ts known in
      let prepared : one_more
            (row_of batch_id t (find_account t.account_number db.accounts)
              (find_goal t.goal_number db.goals))
            (prepare_rows db batch_id ts)
          ≡ returned (bank_row batch_id account goal t ∷ rows) =
        λ i. one_more (row_of batch_id t (e i) (k i)) (done i) in
      (bank_row batch_id account goal t ∷ rows, prepared, ground (arith, same))

  Known-take : (n : ℕ) (ts : List ParsedBankTransaction) → All Known ts → All Known (take n ts)
  Known-take zero ts known = tt
  Known-take (suc n) [] known = tt
  Known-take (suc n) (t ∷ ts) (here, known) = (here, Known-take n ts known)

  Known-drop : (n : ℕ) (ts : List ParsedBankTransaction) → All Known ts → All Known (drop n ts)
  Known-drop zero ts known = known
  Known-drop (suc n) [] known = tt
  Known-drop (suc n) (t ∷ ts) (here, known) = Known-drop n ts known

  save_bank_slices-Known :
      (size : ℕ)
      → 0 < size
      → (fuel : ℕ) (table : List BankGoalTransaction) (count : ℕ) (ts : List ParsedBankTransaction)
      → length ts ≤ fuel
      → All Known ts
      → (saved : List BankGoalTransaction) × (save_bank_slices fuel size db batch_id table count ts
          ≡ returned (saved, count + length ts))
  unfolding save_bank_slices
  save_bank_slices-Known size positive fuel table count [] enough known = (table, ground (arith))
  save_bank_slices-Known size positive zero table count (t ∷ ts) enough known =
      absurd (omega (arith, enough))
  save_bank_slices-Known size positive (suc fuel) table count (t ∷ ts) enough known =
      let (rows, prepared, same) =
        prepare_rows-Known (take size (t ∷ ts)) (Known-take size (t ∷ ts) known) in
      let left = drop size (t ∷ ts) in
      let (saved, done) =
        save_bank_slices-Known size positive fuel (create_bank_rows table rows)
          (count + length rows) left (omega (arith, enough, length-drop size t ts positive))
          (Known-drop size (t ∷ ts) known) in
      let total : count + length rows + length left ≡ count + length (t ∷ ts) =
        omega (arith, same, length-take-drop size (t ∷ ts)) in
      (
        saved,
        rw
            (
              save_bank_slices,
              prepared,
              Known-fits (take size (t ∷ ts)) (Known-take size (t ∷ ts) known),
            )
            (done ∙ ap (λ n. returned (saved, n)) total),
      )

  -- Transactions whose accounts and goals have rows, and whose values the columns take, are all saved.
  pub save_bank_transactions-Known :
      (ts : List ParsedBankTransaction)
      → All Known ts
      → (after : Database) × (save_bank_transactions batch_id ts db ≡ returned (after, length ts))
  unfolding save_bank_transactions
  save_bank_transactions-Known ts known =
      let (saved, done) =
        save_bank_slices-Known bank_batch_size (omega arith) (length ts) db.bank_goal_transactions 0
          ts (omega arith) known in
      (
        record db { bank_goal_transactions = saved },
        rw (save_bank_transactions, done) (ground (arith)),
      )
