-- ===== src/Validation/Partition.antt =====
-- `validateBatch` of src/services/fund-upload/validators/FundTransactionValidator.ts against a
-- description of its three lists.
use xeno_reconciliation.Prelude.{
  ℕ, ◌≡◌, refl, sym, ◌∙◌, Bool, true, false, not, ◌||◌, List, [], ◌∷◌, ◌++◌, arith, any, any-append,
  Bool-cases, inl, inr, filter_by, map, append_assoc, append-nil, nat_eq, list_eq,
}
use xeno_reconciliation.Prelude.Text.{Text}
use xeno_reconciliation.Prelude.Dict.{Dict}
use xeno_reconciliation.Validation.Types.{
  ParsedFundTransaction, TransactionValidationError, ValidationConfig, Clock, is_critical,
}
use xeno_reconciliation.Validation.Fields.{validate}
use xeno_reconciliation.Validation.Batch.{
  InvalidTransaction, BatchValidation, has_id, is_repeated, duplicate_error, errors_of, remember,
  sort_out, validate_from, validate_batch, empty_batch,
}

abbrev pub id_of : ParsedFundTransaction → Text
id_of t = t.fund_transaction_id

abbrev pub transaction_of : InvalidTransaction → ParsedFundTransaction
transaction_of i = i.transaction

or_false : (b : Bool) → b || false ≡ b
or_false true = refl
or_false false = refl

module _ (config : ValidationConfig) (clock : Clock) where
  -- A transaction is rejected for what it says itself.
  abbrev pub is_rejected : ParsedFundTransaction → Bool
  is_rejected t = any is_critical (validate config clock t)

  errors_of-rejected :
      (seen_ids : Dict Text ℕ) (t : ParsedFundTransaction)
      → any is_critical (errors_of config clock seen_ids t) ≡ is_rejected t
  unfolding errors_of
  errors_of-rejected seen_ids t =
      let more = any-append is_critical (validate config clock t) (duplicate_error t ∷ []) in
      elim (Bool-cases (has_id t)) [
        | inl named ↦ elim (Bool-cases (is_repeated seen_ids t)) [
          | inl met ↦ rw (named, met, more) (or_false (is_rejected t))
          | inr new ↦ rw (named, new)
        ]
        | inr unnamed ↦ rw unnamed
      ]

  sort_out-valid :
      (t : ParsedFundTransaction) (errors : List TransactionValidationError)
      (batch : BatchValidation)
      → any is_critical errors ≡ is_rejected t
      → (sort_out t errors batch).valid_transactions
        ≡ batch.valid_transactions ++ filter_by (λ u. not (is_rejected u)) (t ∷ [])
  unfolding sort_out
  sort_out-valid t errors batch h = elim (Bool-cases (is_rejected t)) [
    | inl bad ↦ rw (h, bad, append-nil batch.valid_transactions)
    | inr good ↦ rw (h, good)
  ]

  sort_out-invalid :
      (t : ParsedFundTransaction) (errors : List TransactionValidationError)
      (batch : BatchValidation)
      → any is_critical errors ≡ is_rejected t
      → map transaction_of (sort_out t errors batch).invalid_transactions
        ≡ map transaction_of batch.invalid_transactions ++ filter_by is_rejected (t ∷ [])
  unfolding sort_out
  sort_out-invalid t errors batch h = elim (Bool-cases (is_rejected t)) [
    | inl bad ↦ rw (h, bad) (snoc batch.invalid_transactions)
    | inr good ↦ rw (h, good, append-nil (map transaction_of batch.invalid_transactions))
  ]
    where
      snoc :
          (xs : List InvalidTransaction)
          → map transaction_of (xs ++ record { transaction = t; errors = errors } ∷ [])
            ≡ map transaction_of xs ++ t ∷ []
      snoc [] = refl
      snoc (x ∷ xs) = rw (snoc xs)

  pub sort_out-all_errors :
      (t : ParsedFundTransaction) (errors : List TransactionValidationError)
      (batch : BatchValidation)
      → (sort_out t errors batch).all_errors ≡ batch.all_errors ++ errors
  unfolding sort_out
  sort_out-all_errors t errors batch = elim (Bool-cases (any is_critical errors)) [
    | inl bad ↦ rw bad
    | inr good ↦ rw good
  ]

  filter_by-cons {ℓ} :
      {A : Type ℓ} (p : A → Bool) (x : A) (xs : List A)
      → filter_by p (x ∷ xs) ≡ filter_by p (x ∷ []) ++ filter_by p xs
  filter_by-cons p x xs = ground arith

  validate_from-partition :
      (seen_ids : Dict Text ℕ) (batch : BatchValidation) (ts : List ParsedFundTransaction)
      → let result = validate_from config clock seen_ids batch ts in
        (result.valid_transactions
          ≡ batch.valid_transactions ++ filter_by (λ t. not (is_rejected t)) ts)
        × (map transaction_of result.invalid_transactions
            ≡ map transaction_of batch.invalid_transactions ++ filter_by is_rejected ts)
  unfolding validate_from
  validate_from-partition seen_ids batch [] = (
    sym (append-nil batch.valid_transactions),
    sym (append-nil (map transaction_of batch.invalid_transactions)),
  )
  validate_from-partition seen_ids batch (t ∷ ts) =
      let errors = errors_of config clock seen_ids t in
      let same = errors_of-rejected seen_ids t in
      let (valid, invalid) =
        validate_from-partition (remember seen_ids t) (sort_out t errors batch) ts in
      (
        valid
            ∙ rw (
              sort_out-valid t errors batch same,
              append_assoc batch.valid_transactions (filter_by (λ u. not (is_rejected u)) (t ∷ []))
                  (filter_by (λ u. not (is_rejected u)) ts),
              ← filter_by-cons (λ u. not (is_rejected u)) t ts,
            ),
        invalid
            ∙ rw (
              sort_out-invalid t errors batch same,
              append_assoc (map transaction_of batch.invalid_transactions)
                  (filter_by is_rejected (t ∷ [])) (filter_by is_rejected ts),
              ← filter_by-cons is_rejected t ts,
            ),
      )

-- `validateBatch` sorts the transactions into two lists and keeps their order in each: those that
-- the field checks find no critical error in, and those that they find one in. A repeated id moves
-- no transaction.
pub validate_batch_partitions :
    (config : ValidationConfig) (clock : Clock) (ts : List ParsedFundTransaction)
    → let batch = validate_batch config clock ts in
      (batch.valid_transactions ≡ filter_by (λ t. not (is_rejected config clock t)) ts)
      × (map transaction_of batch.invalid_transactions ≡ filter_by (is_rejected config clock) ts)
unfolding validate_batch
validate_batch_partitions config clock ts = validate_from-partition config clock [] empty_batch ts
