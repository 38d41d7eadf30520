-- ===== src/BankUpload/Validator/Known.antt =====
-- The accounts and goals of the transactions that the validation lets through.
use xeno_reconciliation.Prelude.{
  ◌≡◌, refl, sym, ◌∙◌, ◌⊎◌, inl, inr, Bool, true, false, not, ◌&&◌, ◌||◌, some, List, [], ◌∷◌, map,
  if◌then◌else◌, ◌==◌, nat_eq, list_eq, any, includes, length, ltb, Bool-cases, Option-cases,
  ==_iff, arith, All, All-append,
}
use xeno_reconciliation.Prelude.Text.{Text}
use xeno_reconciliation.Prelude.Dict.{Dict, lookup, insert, lookup-insert}
use xeno_reconciliation.Validation.Fields.{is_missing}
use xeno_reconciliation.Upload.Records.{Account, Goal}
use xeno_reconciliation.Upload.Detector.{number_of, goal_number}
use xeno_reconciliation.BankUpload.Types.{
  ParsedBankTransaction, ValidationError, Locale, has_severity_critical,
}
use xeno_reconciliation.BankUpload.Validator.{
  is_blank, bank_account_number, bank_goal_number, unique_numbers, lookup_from, existing_numbers,
  Lookups, lookups, normalized, or_same, normalize, lacks_account, lacks_goal, bank_errors_of,
  BankValidation, critical_errors, sort_bank, validate_bank_from, empty_validation,
  validate_bank_batch, validate_transaction,
}
use xeno_reconciliation.BankUpload.Validator.Accepted.{
  validate_transaction-IsAcceptable, bank_critical_last,
}

-- What a lookup finds is one of the numbers.
lookup_from-listed :
    (lower : Text → Text) (d : Dict Text Text) (ns : List Text) (k n : Text)
    → lookup k (lookup_from lower d ns) ≡ some n
    → (lookup k d ≡ some n) ⊎ (includes ns n ≡ true)
unfolding lookup_from
lookup_from-listed lower d [] k n h = inl h
lookup_from-listed lower d (m ∷ ns) k n h =
    elim (lookup_from-listed lower (insert (lower m) m d) ns k n h) [
      | inr later ↦ inr (ground (arith, later))
      | inl e ↦ elim (Bool-cases (lower m == k)) [
        | inl same ↦
            let found : some m ≡ some n = sym (lookup-insert (lower m) k m d ∙ rw same refl) ∙ e in
            inr (ground (arith, found, ==_iff m n))
        | inr other ↦ inl (sym (lookup-insert (lower m) k m d ∙ rw other refl) ∙ e)
      ]
    ]

includes-existing_numbers {ℓ} :
    {A : Type ℓ} (number : A → Text) (rows : List A) (numbers : List Text) (n : Text)
    → includes (existing_numbers number rows numbers) n ≡ true
    → includes (map number rows) n ≡ true
unfolding existing_numbers
includes-existing_numbers number [] numbers n h = h
includes-existing_numbers number (row ∷ rows) numbers n h =
    elim (Bool-cases (includes numbers (number row))) [
      | inl kept ↦ ground (arith, h, kept, includes-existing_numbers number rows numbers n)
      | inr left ↦ ground (arith, h, left, includes-existing_numbers number rows numbers n)
    ]

-- The account and the goal of a transaction have rows.
abbrev pub IsKnown : List Account → List Goal → ParsedBankTransaction → Type 0
IsKnown accounts goals t =
    (includes (map number_of accounts) t.account_number ≡ true)
    × (includes (map goal_number goals) t.goal_number ≡ true)

module _ (locale : Locale) (accounts : List Account) (goals : List Goal) where
  -- What the lookups of a list of transactions find has a row.
  abbrev AreFound : Lookups → Type 0
  AreFound found =
      ((k n : Text)
        → lookup k found.account_lookup ≡ some n
        → includes (map number_of accounts) n ≡ true)
      × ((k n : Text)
          → lookup k found.goal_lookup ≡ some n
          → includes (map goal_number goals) n ≡ true)

  lookups-AreFound : (ts : List ParsedBankTransaction) → AreFound (lookups locale accounts goals ts)
  unfolding lookups
  lookups-AreFound ts =
      let account_numbers = unique_numbers bank_account_number ts in
      let goal_numbers = unique_numbers bank_goal_number ts in
      (
        λ k n h.
            elim (lookup_from-listed locale.to_lower_case []
              (existing_numbers number_of accounts account_numbers) k n h) [
                | inl e ↦ ground (arith, e)
                | inr listed ↦ includes-existing_numbers number_of accounts account_numbers n listed
              ],
        λ k n h.
            elim (lookup_from-listed locale.to_lower_case []
              (existing_numbers goal_number goals goal_numbers) k n h) [
                | inl e ↦ ground (arith, e)
                | inr listed ↦ includes-existing_numbers goal_number goals goal_numbers n listed
              ],
      )

  -- A number that is there and found is replaced by one that has a row.
  known_number :
      (numbers : List Text) (d : Dict Text Text) (number : Text)
      → ((k n : Text) → lookup k d ≡ some n → includes numbers n ≡ true)
      → is_blank number ≡ false
      → not (is_blank number) && is_missing (normalized locale d number) ≡ false
      → includes numbers
          (if is_blank number then number else or_same number (normalized locale d number))
        ≡ true
  known_number numbers d number found there h = elim (Option-cases (normalized locale d number)) [
    | inl e ↦ ground (arith, h, there, e)
    | inr (n, e) ↦ rw (there, e) (found (locale.to_lower_case number) n e)
  ]

  errors-critical :
      (found : Lookups) (t : ParsedBankTransaction)
      → any has_severity_critical (bank_errors_of locale found t)
        ≡ any has_severity_critical (validate_transaction locale t)
          || lacks_account locale found t
          || lacks_goal locale found t
  unfolding bank_errors_of
  errors-critical found t = rw (bank_critical_last, bank_critical_last) refl

  split_false : (a b c : Bool) → a || b || c ≡ false → (a ≡ false) × (b ≡ false) × (c ≡ false)
  split_false a b c h = (ground (arith, h), ground (arith, h), ground (arith, h))

  normalize-IsKnown :
      (found : Lookups) (t : ParsedBankTransaction)
      → AreFound found
      → any has_severity_critical (bank_errors_of locale found t) ≡ false
      → IsKnown accounts goals (normalize locale found t)
  unfolding normalize
  normalize-IsKnown found t (of_account, of_goal) h =
      let (own, account, goal) =
        split_false _ (lacks_account locale found t) (lacks_goal locale found t)
          (sym (errors-critical found t) ∙ h) in
      let ok = (validate_transaction-IsAcceptable locale t).0 own in
      (
        known_number (map number_of accounts) found.account_lookup t.account_number of_account
            ok.account_number account,
        known_number (map goal_number goals) found.goal_lookup t.goal_number of_goal ok.goal_number
            goal,
      )

  nothing_critical :
      (errors : List ValidationError)
      → any has_severity_critical errors ≡ ltb 0 (length (critical_errors errors))
  nothing_critical [] = refl
  nothing_critical (e ∷ errors) = ground (arith, nothing_critical errors)

  sort_bank-IsKnown :
      (found : Lookups) (result : BankValidation) (t : ParsedBankTransaction)
      → AreFound found
      → All (IsKnown accounts goals) result.valid_transactions
      → All (IsKnown accounts goals) (sort_bank locale found result t).valid_transactions
  unfolding sort_bank
  sort_bank-IsKnown found result t are_found known =
      let errors = bank_errors_of locale found t in
      elim (Bool-cases (ltb 0 (length (critical_errors errors)))) [
        | inl bad ↦ rw (sort_bank, bad) known
        | inr fine ↦
            rw (sort_bank, fine)
              (All-append (IsKnown accounts goals) result.valid_transactions
                (normalize locale found t ∷ []) known
                (normalize-IsKnown found t are_found (nothing_critical errors ∙ fine), tt))
      ]

  validate_bank_from-IsKnown :
      (found : Lookups) (result : BankValidation) (ts : List ParsedBankTransaction)
      → AreFound found
      → All (IsKnown accounts goals) result.valid_transactions
      → All (IsKnown accounts goals) (validate_bank_from locale found result ts).valid_transactions
  unfolding validate_bank_from
  validate_bank_from-IsKnown found result [] are_found known = known
  validate_bank_from-IsKnown found result (t ∷ ts) are_found known =
      validate_bank_from-IsKnown found (sort_bank locale found result t) ts are_found
        (sort_bank-IsKnown found result t are_found known)

  -- Every transaction that the validation lets through has the account number and the goal number
  -- of rows, written as the rows have them.
  pub validate_bank_batch-IsKnown :
      (ts : List ParsedBankTransaction)
      → All
          (IsKnown accounts goals)
          (validate_bank_batch locale accounts goals ts).valid_transactions
  unfolding validate_bank_batch
  validate_bank_batch-IsKnown ts =
      validate_bank_from-IsKnown (lookups locale accounts goals ts) empty_validation ts
        (lookups-AreFound ts) tt
