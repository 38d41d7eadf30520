-- ===== src/Upload/Repository/Slices.antt =====
-- `saveTransactions` saves slice by slice what one pass over all transactions saves.
use xeno_reconciliation.Prelude.{
  inr, inl, ◌⊎◌, Bool, true, ◌&&◌, all, Bool-cases, Option-cases, map, ℕ, zero, suc, ◌+◌, ◌≤◌, ◌<◌,
  ◌≡◌, refl, sym, ap, ◌∙◌, List, [], ◌∷◌, ◌++◌, length, take, drop, arith,
}
use xeno_reconciliation.Prelude.Text.{Text}
use xeno_reconciliation.Validation.Types.{ParsedFundTransaction}
use xeno_reconciliation.Upload.Records.{
  StoredTransaction, Database, ProcessingError, Result, returned, thrown, missing_foreign_key,
  invalid_value,
}
use xeno_reconciliation.Upload.Repository.{
  save_transactions, fits_columns, fits_row, checked, resolve_one, References, Resolved,
  resolve_all, stored_row, create_many, save_batch, save_slices,
}
use xeno_reconciliation.Upload.Repository.Resolve.{all_references, resolve_foreign_keys-all}

pub Result-cases {ℓ} :
    {A : Type ℓ} (r : Result A)
    → ((a : A) × (r ≡ returned a)) ⊎ ((e : ProcessingError) × (r ≡ thrown e))
Result-cases (returned a) = inl (a, refl)
Result-cases (thrown e) = inr (e, refl)

-- What is thrown names the row of a transaction.
pub resolve_all-thrown :
    (refs : References) (ts : List ParsedFundTransaction) (error : ProcessingError)
    → resolve_all refs ts ≡ thrown error
    → (row : ℕ) × (error ≡ missing_foreign_key row)
unfolding resolve_all
resolve_all-thrown refs [] error h = ground (arith, h)
resolve_all-thrown refs (t ∷ ts) error h = elim (Option-cases (resolve_one refs t)) [
  | inl e ↦ (t.row_number, ground (arith, e, h))
  | inr (r, e) ↦ elim (Result-cases (resolve_all refs ts)) [
    | inl (qs, k) ↦ ground (arith, e, k, h)
    | inr (other, k) ↦
        let (row, same) = resolve_all-thrown refs ts other k in (row, ground (arith, e, k, h, same))
  ]
]

-- The errors of the saving: a missing reference of a row, or a value that a column does not take.
abbrev pub IsSaveError : ProcessingError → Type 0
IsSaveError e = ((row : ℕ) × (e ≡ missing_foreign_key row)) ⊎ (e ≡ invalid_value)

checked-IsSaveError :
    (refs : References) (ts : List ParsedFundTransaction) (e : ProcessingError)
    → checked (resolve_all refs ts) ≡ thrown e
    → IsSaveError e
checked-IsSaveError refs ts e h = elim (Result-cases (resolve_all refs ts)) [
  | inr (error, k) ↦
      let (row, same) = resolve_all-thrown refs ts error k in
      let thrown_same : ◌≡◌ {A = Result (List Resolved)} (thrown error) (thrown e) = rw k at h in
      inl (row, sym (thrown_injective error e thrown_same) ∙ same)
  | inl (rs, k) ↦ elim (Bool-cases (all fits_row rs)) [
    | inl fit ↦ absurd (returned_is_not_thrown rs e (rw (k, fit) at h))
    | inr unfit ↦ inr (sym (thrown_injective invalid_value e (rw (k, unfit) at h)))
  ]
]
  where
    thrown_injective :
        (p q : ProcessingError) → ◌≡◌ {A = Result (List Resolved)} (thrown p) (thrown q) → p ≡ q
    thrown_injective p q same = cc

    returned_is_not_thrown :
        (rs : List Resolved) (q : ProcessingError)
        → ◌≡◌ {A = Result (List Resolved)} (returned rs) (thrown q)
        → ⊥
    returned_is_not_thrown rs q same = cc

-- What is left of a result: the second list after the first.
abbrev both : Result (List Resolved) → Result (List Resolved) → Result (List Resolved)
both (thrown e) s = thrown e
both (returned rs) (thrown e) = thrown e
both (returned rs) (returned qs) = returned (rs ++ qs)

resolve_all-append :
    (refs : References) (ts us : List ParsedFundTransaction)
    → resolve_all refs (ts ++ us) ≡ both (resolve_all refs ts) (resolve_all refs us)
unfolding resolve_all
resolve_all-append refs [] us = ground (arith)
resolve_all-append refs (t ∷ ts) us = ground (arith, resolve_all-append refs ts us)

create_many-append :
    (table rows more : List StoredTransaction)
    → create_many table (rows ++ more) ≡ create_many (create_many table rows) more
unfolding create_many
create_many-append table [] more = refl
create_many-append table (row ∷ rows) more =
    ground
      (arith, create_many-append (table ++ row ∷ []) rows more, create_many-append table rows more)

map-append {ℓ κ} :
    {A : Type ℓ} {B : Type κ} (f : A → B) (xs ys : List A) → map f (xs ++ ys) ≡ map f xs ++ map f ys
map-append f [] ys = refl
map-append f (x ∷ xs) ys = ground (arith, map-append f xs ys)

take-drop {ℓ} : {A : Type ℓ} (n : ℕ) (xs : List A) → take n xs ++ drop n xs ≡ xs
take-drop zero xs = refl
take-drop (suc n) [] = refl
take-drop (suc n) (x ∷ xs) = ground (arith, take-drop n xs)

pub length-take-drop {ℓ} :
    {A : Type ℓ} (n : ℕ) (xs : List A) → length (take n xs) + length (drop n xs) ≡ length xs
length-take-drop zero xs = omega arith
length-take-drop (suc n) [] = refl
length-take-drop (suc n) (x ∷ xs) = omega (arith, length-take-drop n xs)

pub length-drop {ℓ} :
    {A : Type ℓ} (n : ℕ) (x : A) (xs : List A) → 0 < n → length (drop n (x ∷ xs)) ≤ length xs
length-drop zero x xs h = omega (arith, h)
length-drop (suc n) x xs h = omega (arith, length-take-drop n xs)

-- What is returned after the check was resolved.
pub checked-returned :
    (r : Result (List Resolved)) (rs : List Resolved) → checked r ≡ returned rs → r ≡ returned rs
checked-returned (thrown e) rs h = h
checked-returned (returned qs) rs h = elim (Bool-cases (all fits_row qs)) [
  | inl fit ↦ rw fit at h
  | inr unfit ↦ absurd (clash (rw unfit at h))
]
  where
    clash : ◌≡◌ {A = Result (List Resolved)} (thrown invalid_value) (returned rs) → ⊥
    clash e = cc

all-append {ℓ} :
    {A : Type ℓ} (p : A → Bool) (xs ys : List A) → all p (xs ++ ys) ≡ all p xs && all p ys
all-append p [] ys = refl
all-append p (x ∷ xs) ys = ground (arith, all-append p xs ys)

checked-both :
    (rs qs : List Resolved)
    → all fits_row rs ≡ true
    → checked (returned (rs ++ qs)) ≡ both (returned rs) (checked (returned qs))
checked-both rs qs fit = elim (Bool-cases (all fits_row qs)) [
  | inl k ↦ rw (all-append fits_row rs qs, fit, k) refl
  | inr k ↦ rw (all-append fits_row rs qs, fit, k) refl
]

-- Where the first part passes the check, the check of both is the check of the second.
checked-both-returned :
    (r s : Result (List Resolved)) (rs : List Resolved)
    → checked r ≡ returned rs
    → checked (both r s) ≡ both (returned rs) (checked s)
checked-both-returned (thrown e) s rs h = absurd (clash h)
  where
    clash : ◌≡◌ {A = Result (List Resolved)} (thrown e) (returned rs) → ⊥
    clash k = cc
checked-both-returned (returned qs) s rs h = elim (Bool-cases (all fits_row qs)) [
  | inr unfit ↦ absurd (clash (rw unfit at h))
  | inl fit ↦ rw (sym h, fit) (cases s fit)
]
  where
    clash : ◌≡◌ {A = Result (List Resolved)} (thrown invalid_value) (returned rs) → ⊥
    clash k = cc

    cases :
        (u : Result (List Resolved))
        → all fits_row qs ≡ true
        → checked (both (returned qs) u) ≡ both (returned qs) (checked u)
    cases (thrown e) fit = refl
    cases (returned ps) fit = checked-both qs ps fit

checked-both-thrown :
    (r s : Result (List Resolved)) (e : ProcessingError)
    → checked r ≡ thrown e
    → (f : ProcessingError) × (checked (both r s) ≡ thrown f)
checked-both-thrown (thrown d) s e h = (d, refl)
checked-both-thrown (returned rs) (thrown d) e h = (d, refl)
checked-both-thrown (returned rs) (returned qs) e h = elim (Bool-cases (all fits_row rs)) [
  | inl fit ↦ absurd (clash (rw fit at h))
  | inr unfit ↦ (invalid_value, rw (all-append fits_row rs qs, unfit) refl)
]
  where
    clash : ◌≡◌ {A = Result (List Resolved)} (returned rs) (thrown e) → ⊥
    clash k = cc

-- Where the first returns, the second returns the same; where it throws, the second throws an error
-- of the saving too, be it for another row.
abbrev pub Agrees {ℓ} : {A : Type ℓ} → Result A → Result A → Type ℓ
Agrees (returned a) s = s ≡ returned a
Agrees (thrown e) s = (f : ProcessingError) × (s ≡ thrown f) × IsSaveError f

-- One pass: all transactions are resolved, by the maps of all rows, then all rows are created.
abbrev pub saved_at_once :
    Text → List StoredTransaction → ℕ → Result (List Resolved) → Result (List StoredTransaction × ℕ)
saved_at_once batch_id table count (thrown e) = thrown e
saved_at_once batch_id table count (returned rs) =
    returned (create_many table (map (stored_row batch_id) rs), count)

-- What `both` makes of a pass over two parts.
saved_at_once-both :
    (batch_id : Text) (table : List StoredTransaction) (n k : ℕ) (r s : Result (List Resolved))
    → saved_at_once batch_id table (n + k) (both r s) ≡ elim (saved_at_once batch_id table n r) [
      | thrown e ↦ thrown e
      | returned saved ↦ saved_at_once batch_id saved.0 (saved.1 + k) s
    ]
saved_at_once-both batch_id table n k (thrown e) s = refl
saved_at_once-both batch_id table n k (returned rs) (thrown e) = refl
saved_at_once-both batch_id table n k (returned rs) (returned qs) =
    rw
      (
        map-append (stored_row batch_id) rs qs,
        create_many-append table (map (stored_row batch_id) rs) (map (stored_row batch_id) qs),
      )
      refl

save_batch-at_once :
    (db : Database) (batch_id : Text) (table : List StoredTransaction)
    (ts : List ParsedFundTransaction)
    → save_batch db batch_id table ts ≡ elim (checked (resolve_all (all_references db) ts)) [
      | thrown e ↦ thrown e
      | returned rs ↦ returned (create_many table (map (stored_row batch_id) rs))
    ]
unfolding save_batch
save_batch-at_once db batch_id table ts = rw (save_batch, resolve_foreign_keys-all db ts) refl

module _ (size : ℕ) (db : Database) (batch_id : Text) (positive : 0 < size) where
  abbrev refs : References
  refs = all_references db

  save_slices-Agrees :
      (fuel : ℕ) (table : List StoredTransaction) (count : ℕ) (ts : List ParsedFundTransaction)
      → length ts ≤ fuel
      → Agrees
          (saved_at_once batch_id table (count + length ts) (checked (resolve_all refs ts)))
          (save_slices fuel size db batch_id table count ts)
  unfolding save_slices resolve_all create_many
  save_slices-Agrees fuel table count [] enough = ground (arith)
  save_slices-Agrees zero table count (t ∷ ts) enough = absurd (omega (arith, enough))
  save_slices-Agrees (suc fuel) table count (t ∷ ts) enough =
      let slice = take size (t ∷ ts) in
      let left = drop size (t ∷ ts) in
      let parts =
        ap (resolve_all refs) (sym (take-drop size (t ∷ ts)))
        ∙ resolve_all-append refs slice left in
      let total : count + length (t ∷ ts) ≡ count + length slice + length left =
        omega (arith, length-take-drop size (t ∷ ts)) in
      let saved = save_batch-at_once db batch_id table slice in
      elim (Result-cases (checked (resolve_all refs slice))) [
        | inl (rs, e) ↦
            rw
              (
                save_slices,
                saved,
                e,
                parts,
                checked-both-returned (resolve_all refs slice) (resolve_all refs left) rs e,
                total,
                saved_at_once-both batch_id table (count + length slice) (length left) (returned rs)
                    (checked (resolve_all refs left)),
              )
              (save_slices-Agrees fuel (create_many table (map (stored_row batch_id) rs))
                (count + length slice) left (omega (arith, enough, length-drop size t ts positive)))
        | inr (error, e) ↦
            let (f, same) =
              checked-both-thrown (resolve_all refs slice) (resolve_all refs left) error e in
            rw (save_slices, saved, e, parts, same)
              (error, refl, checked-IsSaveError refs slice error e)
      ]

-- Saving in one pass.
unfoldable pub save_at_once : Text → List ParsedFundTransaction → Database → Result (Database × ℕ)
unfolding resolve_all fits_columns create_many stored_row
save_at_once batch_id ts db = elim (checked (resolve_all (all_references db) ts)) [
  | thrown e ↦ thrown e
  | returned rs ↦ returned (
    record db {
      fund_transactions = create_many db.fund_transactions (map (stored_row batch_id) rs);
    },
    length ts,
  )
]

-- `saveTransactions` saves slice by slice what one pass would save: for every size of a slice above
-- 0, where one pass over all transactions returns, it creates the same rows and answers with the
-- number of the transactions that it was given; and where one pass throws, it throws too, for a
-- missing reference or for a value that a column does not take, be it of another row.
pub save_transactions-save_at_once :
    (size : ℕ) (batch_id : Text) (ts : List ParsedFundTransaction) (db : Database)
    → 0 < size
    → Agrees (save_at_once batch_id ts db) (save_transactions size batch_id ts db)
unfolding save_transactions save_at_once
save_transactions-save_at_once size batch_id ts db positive =
    let slices =
      save_slices-Agrees size db batch_id positive (length ts) db.fund_transactions 0 ts
        (omega arith) in
    elim (Result-cases (checked (resolve_all (all_references db) ts))) [
      | inl (rs, e) ↦
          let done : save_slices (length ts) size db batch_id db.fund_transactions 0 ts
              ≡ returned
                  (create_many db.fund_transactions (map (stored_row batch_id) rs), 0 + length ts) =
            rw e at slices in
          rw (save_transactions, save_at_once, e, done) (ground (arith))
      | inr (error, e) ↦
          let (f, same, why) : (f : ProcessingError) × (save_slices (length ts) size db batch_id
                  db.fund_transactions 0 ts
                ≡ thrown f)
              × IsSaveError f =
            rw e at slices in
          rw (save_transactions, save_at_once, e, same) (f, refl, why)
    ]

-- The two ways in which a saving ends.
pub save_transactions-cases :
    (size : ℕ) (batch_id : Text) (ts : List ParsedFundTransaction) (db : Database)
    → 0 < size
    → ((rs : List Resolved) × (checked (resolve_all (all_references db) ts) ≡ returned rs)
        × (save_transactions size batch_id ts db
            ≡ returned (
              record db {
                fund_transactions = create_many db.fund_transactions (map (stored_row batch_id) rs);
              },
              length ts,
            )))
      ⊎ ((e : ProcessingError) × (save_transactions size batch_id ts db ≡ thrown e) × IsSaveError e)
unfolding save_at_once
save_transactions-cases size batch_id ts db positive =
    let agrees = save_transactions-save_at_once size batch_id ts db positive in
    elim (Result-cases (checked (resolve_all (all_references db) ts))) [
      | inl (rs, e) ↦ inl (rs, e, rw (save_at_once, e) at agrees)
      | inr (error, e) ↦ inr (rw (save_at_once, e) at agrees)
    ]

pub save_transactions-returned :
    (size : ℕ) (batch_id : Text) (ts : List ParsedFundTransaction) (db : Database)
    → 0 < size
    → (rs : List Resolved) → checked (resolve_all (all_references db) ts) ≡ returned rs
    → save_transactions size batch_id ts db
      ≡ returned (
        record db {
          fund_transactions = create_many db.fund_transactions (map (stored_row batch_id) rs);
        },
        length ts,
      )
unfolding save_at_once
save_transactions-returned size batch_id ts db positive rs e =
    rw (save_at_once, e) at (save_transactions-save_at_once size batch_id ts db positive)
