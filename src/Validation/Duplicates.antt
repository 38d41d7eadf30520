-- ===== src/Validation/Duplicates.antt =====
-- The errors of a batch of src/services/fund-upload/validators/FundTransactionValidator.ts and the
-- repeated ids among them.
use xeno_reconciliation.Prelude.{
  ℕ, ◌<◌, ◌≡◌, refl, sym, ◌∙◌, Bool, true, false, ◌&&◌, ◌||◌, List, [], ◌∷◌, ◌++◌, arith,
  Bool-cases, inl, inr, append_assoc, append-nil, All, includes, nat_eq, list_eq, ◌==◌, ==_iff,
  if◌then◌else◌, some,
}
use xeno_reconciliation.Prelude.Text.{Text}
use xeno_reconciliation.Prelude.Dict.{Dict, lookup, lookup-insert}
use xeno_reconciliation.Validation.Types.{
  ParsedFundTransaction, TransactionValidationError, ValidationConfig, Clock,
}
use xeno_reconciliation.Validation.Fields.{validate}
use xeno_reconciliation.Validation.Batch.{
  BatchValidation, has_id, is_row, is_repeated, duplicate_error, errors_of, remember, sort_out,
  validate_from, validate_batch, empty_batch,
}
use xeno_reconciliation.Validation.Partition.{sort_out-all_errors}

-- The entry for a transaction whose id one of the earlier transactions has.
abbrev pub repetition : List Text → ParsedFundTransaction → List TransactionValidationError
repetition earlier t =
    if has_id t && includes earlier t.fund_transaction_id then duplicate_error t ∷ [] else []

-- The errors of the transactions behind those whose ids are given.
abbrev pub expected_errors :
    ValidationConfig
    → Clock
    → List Text
    → List ParsedFundTransaction
    → List TransactionValidationError
expected_errors config clock earlier [] = []
expected_errors config clock earlier (t ∷ ts) =
    (validate config clock t ++ repetition earlier t)
    ++ expected_errors config clock (t.fund_transaction_id ∷ earlier) ts

abbrev is_named : Text → Bool
is_named [] = false
is_named (c ∷ s) = true

-- The map of ids answers for the ids of the earlier transactions.
abbrev Recalls : Dict Text ℕ → List Text → Type 0
Recalls seen_ids earlier =
    (id : Text) → is_row (lookup id seen_ids) ≡ is_named id && includes earlier id

has_id-is_named : (t : ParsedFundTransaction) → has_id t ≡ is_named t.fund_transaction_id
has_id-is_named t = go t.fund_transaction_id
  where
    go : (s : Text) → elim s [ [] ↦ false | c ∷ r ↦ true ] ≡ is_named s
    go [] = refl
    go (c ∷ s) = refl

-- A text that is met changes no answer, and the empty one has none.
known :
    (earlier : List Text) (here id : Text)
    → is_named here && includes earlier here ≡ is_named here
    → is_named id && includes earlier id ≡ is_named id && (here == id || includes earlier id)
known earlier here id h = elim (Bool-cases (here == id)) [
  | inl same ↦
      rw (same, ← (==_iff here id).0 same) (or_true (is_named here) (includes earlier here) h)
  | inr other ↦ rw other
]
  where
    or_true : (a b : Bool) → a && b ≡ a → a && b ≡ a && true
    or_true true b h = h
    or_true false b h = refl

remember-Recalls :
    (seen_ids : Dict Text ℕ) (earlier : List Text) (t : ParsedFundTransaction)
    → 0 < t.row_number
    → Recalls seen_ids earlier
    → Recalls (remember seen_ids t) (t.fund_transaction_id ∷ earlier)
unfolding remember
remember-Recalls seen_ids earlier t h recalls id = elim (Bool-cases (has_id t)) [
  | inr unnamed ↦
      let blank : is_named t.fund_transaction_id ≡ false = sym (has_id-is_named t) ∙ unnamed in
      rw unnamed (recalls id ∙ known earlier t.fund_transaction_id id (rw blank))
  | inl named ↦ elim (Bool-cases (is_repeated seen_ids t)) [
    | inl met ↦
        let full : is_named t.fund_transaction_id ≡ true = sym (has_id-is_named t) ∙ named in
        rw (named, met)
          (recalls id
            ∙ known earlier t.fund_transaction_id id
                (sym (recalls t.fund_transaction_id) ∙ met ∙ sym full))
    | inr new ↦
        let full : is_named t.fund_transaction_id ≡ true = sym (has_id-is_named t) ∙ named in
        rw (named, new, lookup-insert t.fund_transaction_id id t.row_number seen_ids) (fresh full)
  ]
]
  where
    fresh :
        is_named t.fund_transaction_id ≡ true
        → is_row (if t.fund_transaction_id == id then some t.row_number else lookup id seen_ids)
          ≡ is_named id && (t.fund_transaction_id == id || includes earlier id)
    fresh full = elim (Bool-cases (t.fund_transaction_id == id)) [
      | inl same ↦ rw (same, ← (==_iff t.fund_transaction_id id).0 same, full) (ground arith)
      | inr other ↦ rw other (recalls id)
    ]

errors_of-repetition :
    (config : ValidationConfig) (clock : Clock) (seen_ids : Dict Text ℕ) (earlier : List Text)
    (t : ParsedFundTransaction)
    → Recalls seen_ids earlier
    → errors_of config clock seen_ids t ≡ validate config clock t ++ repetition earlier t
unfolding errors_of
errors_of-repetition config clock seen_ids earlier t recalls = elim (Bool-cases (has_id t)) [
  | inr unnamed ↦ rw unnamed (sym (append-nil (validate config clock t)))
  | inl named ↦
      let full : is_named t.fund_transaction_id ≡ true = sym (has_id-is_named t) ∙ named in
      let same : is_repeated seen_ids t ≡ includes earlier t.fund_transaction_id =
        recalls t.fund_transaction_id ∙ rw full in
      elim (Bool-cases (includes earlier t.fund_transaction_id)) [
        | inl met ↦ rw (named, same, met)
        | inr new ↦ rw (named, same, new) (sym (append-nil (validate config clock t)))
      ]
]

abbrev pub HasRow : ParsedFundTransaction → Type 0
HasRow t = 0 < t.row_number

validate_from-errors :
    (config : ValidationConfig) (clock : Clock) (seen_ids : Dict Text ℕ) (earlier : List Text)
    (batch : BatchValidation) (ts : List ParsedFundTransaction)
    → Recalls seen_ids earlier
    → All HasRow ts
    → (validate_from config clock seen_ids batch ts).all_errors
      ≡ batch.all_errors ++ expected_errors config clock earlier ts
unfolding validate_from
validate_from-errors config clock seen_ids earlier batch [] recalls h =
    sym (append-nil batch.all_errors)
validate_from-errors config clock seen_ids earlier batch (t ∷ ts) recalls (row, h) =
    let errors = errors_of config clock seen_ids t in
    validate_from-errors config clock (remember seen_ids t) (t.fund_transaction_id ∷ earlier)
      (sort_out t errors batch) ts (remember-Recalls seen_ids earlier t row recalls) h
    ∙ rw (
      sort_out-all_errors config clock t errors batch,
      errors_of-repetition config clock seen_ids earlier t recalls,
      append_assoc batch.all_errors,
    )

-- Where every row has a number above 0, the errors of a batch are, transaction by transaction, those
-- of the field checks, followed by one for a repeated id exactly where the id is not empty and an
-- earlier transaction of the batch has it.
pub validate_batch-expected_errors :
    (config : ValidationConfig) (clock : Clock) (ts : List ParsedFundTransaction)
    → All HasRow ts
    → (validate_batch config clock ts).all_errors ≡ expected_errors config clock [] ts
unfolding validate_batch
validate_batch-expected_errors config clock ts h =
    validate_from-errors config clock [] [] empty_batch ts nothing h
  where
    nothing : Recalls [] []
    nothing [] = refl
    nothing (c ∷ s) = refl
