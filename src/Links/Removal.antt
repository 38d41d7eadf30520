-- ===== src/Links/Removal.antt =====
-- What `removeManualMatch` of src/services/reconciliation/SmartMatcher.ts unlinks.
use xeno_reconciliation.Prelude.{
  true, false, none, some, ap, sym, ◌∙◌, Option, ℕ, ◌+◌, ◌≡◌, refl, Bool, ◌||◌, List, [], ◌∷◌,
  arith, any, Bool-cases, inl, inr, nat_eq, list_eq,
}
use xeno_reconciliation.Prelude.Text.{Text}
use xeno_reconciliation.Store.{BankTransaction, update_many}
use xeno_reconciliation.Links.Operations.{
  reset_match, unmatch_codes, remove_manual_match, unmatch_containing, unmatch_ids, Table,
  is_one_of, is_coded, is_manual_with, count_rows,
}

-- One update after another, the second of which passes over what the first has changed, is one
-- update of the rows that satisfy either condition.
module _ (f : BankTransaction → BankTransaction) (p q : BankTransaction → Bool)
    (skips : (b : BankTransaction) → q (f b) ≡ false) where
  update_many-merge :
      (table : Table)
      → update_many q f (update_many p f table) ≡ update_many (λ b. p b || q b) f table
  unfolding update_many
  update_many-merge [] = refl
  update_many-merge (b ∷ table) = elim (Bool-cases (p b)) [
    | inl changed ↦ rw (changed, skips b, update_many-merge table)
    | inr kept ↦ rw (kept, update_many-merge table)
  ]

  count_rows-merge :
      (table : Table)
      → count_rows p table + count_rows q (update_many p f table)
        ≡ count_rows (λ b. p b || q b) table
  unfolding update_many
  count_rows-merge [] = omega arith
  count_rows-merge (b ∷ table) = elim (Bool-cases (p b)) [
    | inl changed ↦ rw (changed, skips b) (omega (arith, count_rows-merge table))
    | inr kept ↦ elim (Bool-cases (q b)) [
      | inl later ↦ rw (kept, later) (omega (arith, count_rows-merge table))
      | inr never ↦ rw (kept, never) (count_rows-merge table)
    ]
  ]

-- The rows that are unlinked for one of the goal codes.
abbrev pub is_manual_with_some : List Text → BankTransaction → Bool
is_manual_with_some goal_codes b = any (λ code. is_manual_with code b) goal_codes

-- The rows that a removal unlinks.
abbrev pub is_unlinked : List Text → List Text → BankTransaction → Bool
is_unlinked bank_ids goal_codes b =
    is_one_of bank_ids b || (is_coded goal_codes b || is_manual_with_some goal_codes b)

module _ (f : BankTransaction → BankTransaction) (p q : BankTransaction → Bool)
    (same : (b : BankTransaction) → p b ≡ q b) where
  update_many-cong : (table : Table) → update_many p f table ≡ update_many q f table
  unfolding update_many
  update_many-cong [] = refl
  update_many-cong (b ∷ table) = rw (same b, update_many-cong table)

  count_rows-cong : (table : Table) → count_rows p table ≡ count_rows q table
  count_rows-cong [] = refl
  count_rows-cong (b ∷ table) = elim (Bool-cases (q b)) [
    | inl met ↦ rw (same b, met, count_rows-cong table)
    | inr missed ↦ rw (same b, missed, count_rows-cong table)
  ]

-- The count and the table after the update of the rows that satisfy a condition.
abbrev pub unlinked_by : ℕ → (BankTransaction → Bool) → Table → ℕ × Table
unlinked_by now condition table =
    (count_rows condition table, update_many condition (reset_match now) table)

unlinked_by-cong :
    (now : ℕ) (p q : BankTransaction → Bool) (table : Table)
    → ((b : BankTransaction) → p b ≡ q b)
    → unlinked_by now p table ≡ unlinked_by now q table
unlinked_by-cong now p q table same = rw (
  count_rows-cong (reset_match now) p q same table,
  update_many-cong (reset_match now) p q same table,
)

or_assoc : (a b c : Bool) → (a || b) || c ≡ a || (b || c)
or_assoc true b c = refl
or_assoc false b c = refl

or_false : (b : Bool) → b ≡ b || false
or_false true = refl
or_false false = refl

unmatch_containing-unlinked_by :
    (now : ℕ) (goal_codes : List Text) (p : BankTransaction → Bool) (table : Table)
    → unmatch_containing now goal_codes (unlinked_by now p table)
      ≡ unlinked_by now (λ b. p b || is_manual_with_some goal_codes b) table
unfolding unmatch_containing
unmatch_containing-unlinked_by now [] p table =
    unlinked_by-cong now p (λ b. p b || false) table (λ b. or_false (p b))
unmatch_containing-unlinked_by now (code ∷ goal_codes) p table =
    rw
      (
        count_rows-merge (reset_match now) p (is_manual_with code) (λ b. refl) table,
        update_many-merge (reset_match now) p (is_manual_with code) (λ b. refl) table,
      )
      (unmatch_containing-unlinked_by now goal_codes (λ b. p b || is_manual_with code b) table
        ∙ unlinked_by-cong now
            (λ b. (p b || is_manual_with code b) || is_manual_with_some goal_codes b)
            (λ b. p b || is_manual_with_some (code ∷ goal_codes) b) table
            (λ b. or_assoc (p b) (is_manual_with code b) (is_manual_with_some goal_codes b)))

none_unlinked : (now : ℕ) (table : Table) → unlinked_by now (λ b. false) table ≡ (0, table)
unfolding update_many
none_unlinked now [] = refl
none_unlinked now (b ∷ table) = ap (λ (r : ℕ × Table). (r.0, b ∷ r.1)) (none_unlinked now table)

unmatch_ids-unlinked_by :
    (now : ℕ) (bank_ids : List Text) (table : Table)
    → unmatch_ids now bank_ids table ≡ unlinked_by now (is_one_of bank_ids) table
unfolding unmatch_ids
unmatch_ids-unlinked_by now [] table = sym (none_unlinked now table)
unmatch_ids-unlinked_by now (id ∷ ids) table = refl

-- A removal unlinks, each once, the rows whose id is listed, those whose stored code is one of the
-- codes, and those with a manual match whose text contains one of the codes; the number it answers
-- is the number of these rows, and no other row is changed.
pub remove_manual_match-unlinked_by :
    (now : ℕ) (bank_ids goal_codes : List Text) (table : Table)
    → remove_manual_match now bank_ids goal_codes table
      ≡ unlinked_by now (is_unlinked bank_ids goal_codes) table
unfolding remove_manual_match unmatch_codes
remove_manual_match-unlinked_by now bank_ids [] table =
    unmatch_ids-unlinked_by now bank_ids table
    ∙ unlinked_by-cong now (is_one_of bank_ids) (is_unlinked bank_ids []) table (λ b. uncoded b)
  where
    uncoded : (b : BankTransaction) → is_one_of bank_ids b ≡ is_unlinked bank_ids [] b
    uncoded b = go b.matched_goal_transaction_code
      where
        go :
            (o : Option Text)
            → is_one_of bank_ids b
              ≡ is_one_of bank_ids b || (elim o [ none ↦ false | some code ↦ false ] || false)
        go none = or_false (is_one_of bank_ids b)
        go (some code) = or_false (is_one_of bank_ids b)
remove_manual_match-unlinked_by now bank_ids (code ∷ goal_codes) table =
    let all_codes = code ∷ goal_codes in
    rw
      (
        unmatch_ids-unlinked_by now bank_ids table,
        count_rows-merge (reset_match now) (is_one_of bank_ids) (is_coded all_codes) (λ b. refl)
            table,
        update_many-merge (reset_match now) (is_one_of bank_ids) (is_coded all_codes) (λ b. refl)
            table,
      )
      (unmatch_containing-unlinked_by now all_codes
          (λ b. is_one_of bank_ids b || is_coded all_codes b) table
        ∙ unlinked_by-cong now
            (λ b. (is_one_of bank_ids b || is_coded all_codes b) || is_manual_with_some all_codes b)
            (is_unlinked bank_ids all_codes) table
            (λ b.
              or_assoc (is_one_of bank_ids b) (is_coded all_codes b)
                (is_manual_with_some all_codes b)))
