-- ===== src/Links/Manual.antt =====
-- `createManualMatch` of src/services/reconciliation/SmartMatcher.ts: what it stores, read back by
-- the first pass of `getGoalTransactions`, and what it accepts.
use xeno_reconciliation.Prelude.{
  ℕ, zero, suc, ◌+◌, ◌/◌, ◌%◌, ◌≤◌, ◌≡◌, refl, sym, ◌∙◌, ap, Bool, true, false, ◌||◌, some, List,
  [], ◌∷◌, ◌++◌, arith, All, Bool-cases, inl, inr, nat_eq, list_eq, ◌==◌, drop, includes,
  includes-append, ltb, length, nat_beq, nat_beq_iff, filter_by,
}
use xeno_reconciliation.Prelude.Int.{ℤ, negsuc, abs, ◌-ℤ◌, sum_of}
use xeno_reconciliation.Prelude.Text.{
  Text, digits, digits_lem, join, split, split_of_Lacks, split-append, starts_with, Lacks,
}
use xeno_reconciliation.Prelude.Dict.{values}
use xeno_reconciliation.Store.{FundTransaction, update_many}
use xeno_reconciliation.SmartMatcher.Tolerance.{is_within, is_within_iff}
use xeno_reconciliation.SmartMatcher.Passes.{after_colon, manual_prefix}
use xeno_reconciliation.Links.Operations.{
  Table, Outcome, ok, err, LinkError, ManualMatch, manual_code, manual_tolerance,
  create_manual_match, is_one_of, add_goal_amount, bank_total_of, itself, set_manual,
}

starts_with-append : (p s : Text) → starts_with (p ++ s) p ≡ true
unfolding starts_with
starts_with-append [] [] = refl
starts_with-append [] (c ∷ s) = refl
starts_with-append (c ∷ p) s = ground (arith, starts_with-append p s)

after_colon-append : (s t : Text) → Lacks b':' s → after_colon (s ++ b':' ∷ t) ≡ some t
unfolding after_colon
after_colon-append [] t h = refl
after_colon-append (c ∷ s) t h = elim (Bool-cases (c == b':')) [
  | inl colon ↦ absurd (clash (includes s b':') (rw colon at h))
  | inr other ↦ rw other (after_colon-append s t (rw other at h))
]
  where
    clash : (b : Bool) → true || b ≡ false → ⊥
    clash b e = cc

-- No digit is a colon; the fuel bounds the number.
Lacks-digits_up_to : (f n : ℕ) → n ≤ f → Lacks b':' (digits n)
Lacks-digits_up_to zero n h = rw (digits_lem n) (ground arith)
Lacks-digits_up_to (suc f) n h = elim (Bool-cases (ltb n 10)) [
  | inl small ↦ rw (digits_lem n, small) (ground arith)
  | inr large ↦
      rw (digits_lem n, large)
        (includes-append (digits (n / 10)) ((n % 10 + 48) ∷ []) b':'
          ∙ rw (Lacks-digits_up_to f (n / 10) (shrinks large)) (ground arith))
]
  where
    shrinks : ltb n 10 ≡ false → n / 10 ≤ f
    shrinks e = ground arith

split-join :
    (d : ℕ) (p : Text) (ps : List Text)
    → All (Lacks d) (p ∷ ps)
    → split d (join d (p ∷ ps)) ≡ p ∷ ps
unfolding join
split-join d p [] (h, k) = split_of_Lacks d p h
split-join d p (q ∷ ps) (h, k) = split-append d p (join d (q ∷ ps)) h ∙ rw (split-join d q ps k)

-- The code that a manual match stores is one that the first pass of the matching takes for its own,
-- and reads back as the goal transaction codes of the match, where there is one at least and none
-- has a comma.
pub split-manual_code :
    (now : ℕ) (code : Text) (goal_codes : List Text)
    → All (Lacks b',') (code ∷ goal_codes)
    → (starts_with (manual_code now (code ∷ goal_codes)) manual_prefix ≡ true)
      × ((rest : Text) × (after_colon (drop 7 (manual_code now (code ∷ goal_codes))) ≡ some rest)
          × (split b',' rest ≡ code ∷ goal_codes))
unfolding manual_code
split-manual_code now code goal_codes h = (
  starts_with-append manual_prefix _,
  (
    join b',' (code ∷ goal_codes),
    after_colon-append (digits now) (join b',' (code ∷ goal_codes))
        (Lacks-digits_up_to now now (omega arith)),
    split-join b',' code goal_codes h,
  ),
)

-- The rows and the goal transactions that a call is about.
abbrev pub bank_total_in : List Text → Table → ℤ
bank_total_in bank_ids table = sum_of bank_total_of (filter_by (is_one_of bank_ids) table)

abbrev pub goal_total_in : List Text → List FundTransaction → ℤ
goal_total_in goal_codes fund_table = sum_of itself (
    values (
      add_goal_amount []
        (filter_by (λ ft. includes goal_codes ft.goal_transaction_code) fund_table)))

-- What a match that was made tells.
record IsCreated (now : ℕ) (bank_ids goal_codes : List Text) (fund_table : List FundTransaction)
    (table after : Table) : Type 0 where
  pub found : length (filter_by (is_one_of bank_ids) table) ≡ length bank_ids
  pub near :
      is_within
        (manual_tolerance (bank_total_in bank_ids table))
        (bank_total_in bank_ids table)
        (goal_total_in goal_codes fund_table)
      ≡ true
  pub stored : after ≡ update_many (is_one_of bank_ids) (set_manual now goal_codes) table

create_manual_match-IsCreated :
    (now : ℕ) (bank_ids goal_codes : List Text) (fund_table : List FundTransaction) (table : Table)
    → let (outcome, after) = create_manual_match now bank_ids goal_codes fund_table table in
      ((m : ManualMatch)
        → outcome ≡ ok m
        → IsCreated now bank_ids goal_codes fund_table table after)
      × ((e : LinkError) → outcome ≡ err e → after ≡ table)
unfolding create_manual_match
create_manual_match-IsCreated now bank_ids goal_codes fund_table table =
    elim (Bool-cases (nat_beq (length bank_txns) (length bank_ids))) [
      | inr missing ↦ rw missing ((λ m h. absurd (refused h)), (λ e h. refl))
      | inl found ↦ elim (Bool-cases (nat_beq (length goal_totals) (length goal_codes))) [
        | inr missing ↦ rw (found, missing) ((λ m h. absurd (refused h)), (λ e h. refl))
        | inl listed ↦
            elim (Bool-cases (
              is_within (manual_tolerance (bank_total_in bank_ids table))
                (bank_total_in bank_ids table) (goal_total_in goal_codes fund_table))) [
                  | inr far ↦ rw (found, listed, far) ((λ m h. absurd (refused h)), (λ e h. refl))
                  | inl near ↦
                      rw (found, listed, near)
                        (
                          (λ m h. record {
                            found = (nat_beq_iff (length bank_txns) (length bank_ids)).0 found;
                            near = near;
                            stored = refl;
                          }),
                          (λ e h. absurd (refused (sym h))),
                        )
                ]
      ]
    ]
  where
    bank_txns : Table
    bank_txns = filter_by (is_one_of bank_ids) table

    goal_totals : List ℤ
    goal_totals = values (
        add_goal_amount []
          (filter_by (λ ft. includes goal_codes ft.goal_transaction_code) fund_table))

    refusal : LinkError → Outcome ManualMatch
    refusal e = err e

    refused : {e : LinkError} {m : ManualMatch} → refusal e ≡ ok m → ⊥
    refused p = cc

-- Of a negative bank total, as withdrawals have it, a match is made only where the two totals are
-- at most one shilling apart, however large they are.
pub create_manual_match-withdrawals :
    (now : ℕ) (bank_ids goal_codes : List Text) (fund_table : List FundTransaction) (table : Table)
    (m : ManualMatch) (n : ℕ)
    → bank_total_in bank_ids table ≡ negsuc n
    → (create_manual_match now bank_ids goal_codes fund_table table).0 ≡ ok m
    → abs (negsuc n -ℤ goal_total_in goal_codes fund_table) ≤ 100
unfolding manual_tolerance
create_manual_match-withdrawals now bank_ids goal_codes fund_table table m n total h =
    let created = (create_manual_match-IsCreated now bank_ids goal_codes fund_table table).0 m h in
    let near : is_within (manual_tolerance (negsuc n)) (negsuc n)
          (goal_total_in goal_codes fund_table)
        ≡ true =
      ap (λ t. is_within (manual_tolerance t) t (goal_total_in goal_codes fund_table)) (sym total)
      ∙ created.near in
    omega (arith, (is_within_iff 10_000 (negsuc n) (goal_total_in goal_codes fund_table)).0 near)
