-- ===== src/Links/Candidates.antt =====
-- `findReversalCandidates` of src/services/reconciliation/SmartMatcher.ts, and what `linkReversal`
-- asks of a pair. The candidates stand in the table's order; the query sorts them by date.
use mathlib.Core.List.{Memᴰ}
use xeno_reconciliation.Prelude.{
  ℕ, ◌≡◌, sym, Bool, true, false, not, ◌&&◌, Option, none, some, List, [], ◌∷◌, arith, ◌==◌, ==_iff,
  nat_eq, list_eq, if◌then◌else◌, Bool-cases, inl, inr, filter_by, leb, ltb,
}
use xeno_reconciliation.Prelude.Int.{ℤ, pos, ◌+ℤ◌, ◌-ℤ◌, abs, int_eq, int_laws}
use xeno_reconciliation.Prelude.Text.{Text, codes, includes_text}
use xeno_reconciliation.Store.{TransactionType, deposit, withdrawal, type_eq, BankTransaction}
use xeno_reconciliation.Links.Operations.{Table, Outcome, ok, err, LinkError, find_unique}
use xeno_reconciliation.Links.Pairs.{is_netted, check_pair}

-- `sourceTransaction.transactionType === 'DEPOSIT' ? 'WITHDRAWAL' : 'DEPOSIT'`
abbrev pub opposite_type : TransactionType → TransactionType
opposite_type type = if type == deposit then withdrawal else deposit

-- Whether a date is in the range, where one is given.
abbrev pub is_in_range : Option (ℕ × ℕ) → ℕ → Bool
is_in_range none date = true
is_in_range (some (first, last)) date = leb first date && leb date last

abbrev pub is_unmatched : BankTransaction → Bool
is_unmatched b = elim b.matched_goal_transaction_code [ none ↦ true | some code ↦ false ]

-- The condition of the query for a source transaction.
unfoldable pub is_candidate_for : Option (ℕ × ℕ) → BankTransaction → BankTransaction → Bool
is_candidate_for range source b =
    (not (b.id == source.id)
      && b.goal_number == source.goal_number
      && b.transaction_type == opposite_type source.transaction_type
      && b.total_amount == pos 0 -ℤ source.total_amount)
    && (is_unmatched b
        && not (is_netted b)
        && not (includes_text b.transaction_id (codes "Transfer_Reversal"))
        && not (b.transaction_id == codes "RT Change")
        && is_in_range range b.transaction_date)

unfoldable pub candidates_of :
    Option (ℕ × ℕ) → Option BankTransaction → Table → Outcome (List BankTransaction)
unfolding is_candidate_for
candidates_of range none table = err LinkError.not_found
candidates_of range (some source) table = ok (filter_by (is_candidate_for range source) table)

unfoldable pub find_reversal_candidates :
    Text → Option (ℕ × ℕ) → Table → Outcome (List BankTransaction)
unfolding candidates_of find_unique
find_reversal_candidates id range table = candidates_of range (find_unique id table) table

cancels : (a b : ℤ) → b ≡ pos 0 -ℤ a → ltb 1 (abs (a +ℤ b)) ≡ false
cancels a b h = let zero_sum : a +ℤ (pos 0 -ℤ a) ≡ pos 0 = omega int_laws in rw (h, zero_sum)

differs : (s t : TransactionType) → t ≡ opposite_type s → (s == t) ≡ false
differs s t h = rw h (opposite s)
  where
    opposite : (s : TransactionType) → (s == opposite_type s) ≡ false
    opposite s = ground arith

both : (a b : Bool) → a && b ≡ true → (a ≡ true) × (b ≡ true)
both a b h = ground arith

is_candidate_for-check_pair :
    (range : Option (ℕ × ℕ)) (source b : BankTransaction)
    → is_candidate_for range source b ≡ true
    → check_pair (some source) (some b) ≡ none
unfolding is_candidate_for check_pair
is_candidate_for-check_pair range source b h =
    let (pair, _) = both _ _ h in
    let (rest, amounts) = both _ _ pair in
    let (rest', types) = both _ _ rest in
    let (_, goals) = both _ _ rest' in
    let goal : (source.goal_number == b.goal_number) ≡ true =
      (==_iff source.goal_number b.goal_number).1
        (sym ((==_iff b.goal_number source.goal_number).0 goals)) in
    rw (
      goal,
      differs source.transaction_type b.transaction_type
          ((==_iff b.transaction_type (opposite_type source.transaction_type)).0 types),
      cancels source.total_amount b.total_amount
          ((==_iff b.total_amount (pos 0 -ℤ source.total_amount)).0 amounts),
    )

filtered {ℓ} :
    {A : Type ℓ} (p : A → Bool) (xs : List A) (x : A) → Memᴰ x (filter_by p xs) → p x ≡ true
filtered p [] x m = elim m [ ]
filtered p (y ∷ xs) x m = elim (Bool-cases (p y)) [
  | inr failed ↦ filtered p xs x (rw failed at m)
  | inl passed ↦ here passed (filtered p xs x) (rw passed at m)
]
  where
    here :
        p y ≡ true
        → (Memᴰ x (filter_by p xs) → p x ≡ true)
        → Memᴰ x (y ∷ filter_by p xs)
        → p x ≡ true
    here h later (Memᴰ.head same) = rw same h
    here h later (Memᴰ.tail n) = later n

-- Every candidate that is offered for the reversal of a transaction passes the checks of
-- `linkReversal` with it: same goal, different types, amounts that cancel.
pub find_reversal_candidates-check_pair :
    (id : Text) (range : Option (ℕ × ℕ)) (table : Table) (found : List BankTransaction)
    (b : BankTransaction)
    → find_reversal_candidates id range table ≡ ok found
    → Memᴰ b found
    → check_pair (find_unique id table) (some b) ≡ none
unfolding find_reversal_candidates
find_reversal_candidates-check_pair id range table found b h m = go (find_unique id table) h
  where
    refusal : Outcome (List BankTransaction)
    refusal = err LinkError.not_found

    clash : refusal ≡ ok found → ⊥
    clash e = cc

    go :
        (o : Option BankTransaction)
        → candidates_of range o table ≡ ok found
        → check_pair o (some b) ≡ none
    go none e = absurd (clash e)
    go (some source) e =
        is_candidate_for-check_pair range source b
          (filtered (is_candidate_for range source) table b (listed (ok_inj e)))
      where
        ok_inj : {xs ys : List BankTransaction} → ok xs ≡ ok ys → xs ≡ ys
        ok_inj p = cc

        listed :
            filter_by (is_candidate_for range source) table ≡ found
            → Memᴰ b (filter_by (is_candidate_for range source) table)
        listed p = rw p m
