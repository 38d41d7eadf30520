-- ===== src/Codes/Roundtrip.antt =====
-- `parse` after `generate`: when the components come back, and when they do not.
use xeno_reconciliation.Prelude.{
  ◌+◌, ◌-◌, ◌≤◌, ◌≡◌, refl, ◌≢◌, sym, ◌∙◌, ◌⊎◌, ◌&&◌, true, false, some, List, [], ◌∷◌, ◌++◌,
  append_assoc, arith, length, drop, length-append, ltb, leb, ap,
}
use xeno_reconciliation.Prelude.Text.{Text, Lacks, trim, split, split_of_Lacks, split-append}
use xeno_reconciliation.Codes.{
  CalendarDate, format_date, dash, date_part, slice_to, generate, validate, parse, is_empty,
}
use xeno_reconciliation.Codes.Parts.{
  IsDate, split-concat, join-split, split-ne-nil, take_prefix, part_skip, date_part-parts,
  length-date, is_date_text-format_date,
}

abbrev pub IsTrimmed : Text → Type 0
IsTrimmed s = trim s ≡ s

drop_date :
    (d : CalendarDate) (h : IsDate d) (ps : List Text)
    → drop 3 (split dash (format_date d) ++ ps) ≡ ps
drop_date d h ps = drop_prefix (split dash (format_date d)) (length-date d h)
  where
    drop_prefix : (qs : List Text) → length qs ≡ 3 → drop 3 (qs ++ ps) ≡ ps
    drop_prefix (p ∷ q ∷ r ∷ []) e = refl
    drop_prefix [] e = absurd (omega arith)
    drop_prefix (p ∷ []) e = absurd (omega arith)
    drop_prefix (p ∷ q ∷ []) e = absurd (omega arith)
    drop_prefix (p ∷ q ∷ r ∷ s ∷ qs) e = absurd (omega arith)

module _ (d : CalendarDate) (h : IsDate d) (account code : Text) where
  abbrev front : List Text
  front = split dash (format_date d) ++ split dash account

  length-front : length front ≡ 3 + length (split dash account)
  length-front =
      omega
        (arith, length-append (split dash (format_date d)) (split dash account), length-date d h)

  validate_of_parts :
      (ps : List Text)
      → split dash code ≡ split dash (format_date d) ++ ps
      → 2 ≤ length ps
      → validate code ≡ true
  unfolding validate
  validate_of_parts ps e long =
      let enough : ltb (length (split dash (format_date d) ++ ps)) 5 ≡ false =
        ground (arith, length-append (split dash (format_date d)) ps, length-date d h) in
      rw (e, enough, date_part-parts d h ps) (is_date_text-format_date d h)

  -- Three parts behind the account: they are read as the goal, the id and the source.
  parse_of_tracked :
      (g t s : Text)
      → split dash code ≡ front ++ g ∷ t ∷ s ∷ []
      → parse code
        ≡ some (record {
          transaction_date = format_date d;
          account_number = account;
          goal_number = g;
          transaction_id = t;
          source = s;
        })
  unfolding parse
  parse_of_tracked g t s e =
      let ps : List Text = g ∷ t ∷ s ∷ [] in
      let n : length (front ++ ps) ≡ length front + 3 = length-append front ps in
      let valid =
        validate_of_parts (split dash account ++ ps)
          (e ∙ append_assoc (split dash (format_date d)) (split dash account) ps)
          (omega (arith, length-append (split dash account) ps)) in
      let many : leb 7 (length (front ++ ps)) ≡ true =
        ground (arith, n, length-front, split-ne-nil dash account) in
      let enough : ltb (length (front ++ ps)) 5 ≡ false = ground (arith, many) in
      let date : date_part (front ++ ps) ≡ format_date d =
        rw (append_assoc (split dash (format_date d)) (split dash account) ps)
          (date_part-parts d h (split dash account ++ ps)) in
      let slice : slice_to 3 3 (front ++ ps) ≡ split dash account =
        rw (take_prefix front ps (length (front ++ ps) - 3) (omega (arith, n)))
          (drop_date d h (split dash account)) in
      let third = part_skip front ps 0 (length (front ++ ps) - 3) (omega (arith, n)) in
      let second = part_skip front ps 1 (length (front ++ ps) - 2) (omega (arith, n)) in
      let last = part_skip front ps 2 (length (front ++ ps) - 1) (omega (arith, n)) in
      rw (e, valid, enough, many, date, slice, third, second, last, join-split dash account)

  -- One part behind a short account: it is read as the goal.
  parse_of_untracked :
      (g : Text)
      → split dash code ≡ front ++ g ∷ []
      → length (split dash account) ≤ 2
      → parse code
        ≡ some (record {
          transaction_date = format_date d;
          account_number = account;
          goal_number = g;
          transaction_id = [];
          source = [];
        })
  unfolding parse
  parse_of_untracked g e short =
      let ps : List Text = g ∷ [] in
      let n : length (front ++ ps) ≡ length front + 1 = length-append front ps in
      let valid =
        validate_of_parts (split dash account ++ ps)
          (e ∙ append_assoc (split dash (format_date d)) (split dash account) ps)
          (omega (arith, length-append (split dash account) ps, split-ne-nil dash account)) in
      let few : leb 7 (length (front ++ ps)) ≡ false = ground (arith, n, length-front) in
      let enough : ltb (length (front ++ ps)) 5 ≡ false =
        ground (arith, n, length-front, split-ne-nil dash account) in
      let date : date_part (front ++ ps) ≡ format_date d =
        rw (append_assoc (split dash (format_date d)) (split dash account) ps)
          (date_part-parts d h (split dash account ++ ps)) in
      let slice : slice_to 3 1 (front ++ ps) ≡ split dash account =
        rw (take_prefix front ps (length (front ++ ps) - 1) (omega (arith, n)))
          (drop_date d h (split dash account)) in
      let last = part_skip front ps 0 (length (front ++ ps) - 1) (omega (arith, n)) in
      rw (e, valid, enough, few, date, slice, last, join-split dash account)

module _ (d : CalendarDate) (account goal transaction_id source : Text) where
  -- The components are trimmed already.
  pub record AreTrimmed : Type 0 where
    pub account_trimmed : IsTrimmed account
    pub goal_trimmed : IsTrimmed goal
    pub id_trimmed : IsTrimmed transaction_id
    pub source_trimmed : IsTrimmed source

  generate_tracked :
      AreTrimmed
      → (transaction_id ≢ []) ⊎ (source ≢ [])
      → generate d account goal transaction_id source
        ≡ format_date d
          ++ dash ∷ (account ++ dash ∷ (goal ++ dash ∷ (transaction_id ++ dash ∷ source)))
  unfolding generate
  generate_tracked trimmed some_tracking =
      let tracked : (is_empty transaction_id && is_empty source) ≡ false = not_both some_tracking in
      rw (
        trimmed.account_trimmed, trimmed.goal_trimmed, trimmed.id_trimmed, trimmed.source_trimmed,
        tracked,
      )
    where
      not_both :
          (transaction_id ≢ []) ⊎ (source ≢ [])
          → (is_empty transaction_id && is_empty source) ≡ false
      not_both h = ground arith

generate_untracked :
    (d : CalendarDate) (account goal : Text)
    → IsTrimmed account
    → IsTrimmed goal
    → generate d account goal [] [] ≡ format_date d ++ dash ∷ (account ++ dash ∷ goal)
unfolding generate
generate_untracked d account goal ha hg = rw (ha, hg)

split_tracked :
    (s account goal transaction_id source : Text)
    → Lacks dash goal
    → Lacks dash transaction_id
    → Lacks dash source
    → split dash
        (s ++ dash ∷ (account ++ dash ∷ (goal ++ dash ∷ (transaction_id ++ dash ∷ source))))
      ≡ (split dash s ++ split dash account) ++ goal ∷ transaction_id ∷ source ∷ []
split_tracked s account goal transaction_id source hg ht hs =
    rw
      (
        split-concat dash s (account ++ dash ∷ (goal ++ dash ∷ (transaction_id ++ dash ∷ source))),
        split-concat dash account (goal ++ dash ∷ (transaction_id ++ dash ∷ source)),
        split-append dash goal (transaction_id ++ dash ∷ source) hg,
        split-append dash transaction_id source ht,
        split_of_Lacks dash source hs,
      )
      (sym (append_assoc (split dash s) (split dash account) _))

-- For trimmed components of which the goal, the transaction id and the source have no dash, and
-- with an id or a source, `parse` finds in a generated code exactly the components it was made of,
-- whatever dashes the account number has.
pub parse-generate :
    (d : CalendarDate) (account goal transaction_id source : Text)
    → IsDate d
    → AreTrimmed d account goal transaction_id source
    → (transaction_id ≢ []) ⊎ (source ≢ [])
    → Lacks dash goal
    → Lacks dash transaction_id
    → Lacks dash source
    → parse (generate d account goal transaction_id source)
      ≡ some (record {
        transaction_date = format_date d;
        account_number = account;
        goal_number = goal;
        transaction_id = transaction_id;
        source = source;
      })
parse-generate d account goal transaction_id source h trimmed tracked hg ht hs =
    parse_of_tracked d h account (generate d account goal transaction_id source) goal transaction_id
      source
      (ap (split dash) (generate_tracked d account goal transaction_id source trimmed tracked)
        ∙ split_tracked (format_date d) account goal transaction_id source hg ht hs)

-- Without an id and a source, for a trimmed account number of at most one dash and a trimmed goal
-- number with none, `parse` finds the date, the account and the goal of a generated code.
pub parse-generate_historical :
    (d : CalendarDate) (account goal : Text)
    → IsDate d
    → IsTrimmed account
    → IsTrimmed goal
    → length (split dash account) ≤ 2
    → Lacks dash goal
    → parse (generate d account goal [] [])
      ≡ some (record {
        transaction_date = format_date d;
        account_number = account;
        goal_number = goal;
        transaction_id = [];
        source = [];
      })
parse-generate_historical d account goal h ha hg short lacks =
    parse_of_untracked d h account (generate d account goal [] []) goal
      (ap (split dash) (generate_untracked d account goal ha hg)
        ∙ rw
            (
              split-concat dash (format_date d) (account ++ dash ∷ goal),
              split-concat dash account goal,
              split_of_Lacks dash goal lacks,
            )
            (sym (append_assoc (split dash (format_date d)) (split dash account) _)))
      short

-- Where the account and the goal number have one dash each, as the documented numbers do, a code
-- without id and source is read as one that has them: the account loses its second half, which
-- is taken for the goal, and the halves of the goal are taken for the id and the source.
pub parse-generate_misread :
    (d : CalendarDate) (a₁ a₂ g₁ g₂ : Text)
    → IsDate d
    → IsTrimmed (a₁ ++ dash ∷ a₂)
    → IsTrimmed (g₁ ++ dash ∷ g₂)
    → Lacks dash a₂
    → Lacks dash g₁
    → Lacks dash g₂
    → parse (generate d (a₁ ++ dash ∷ a₂) (g₁ ++ dash ∷ g₂) [] [])
      ≡ some (record {
        transaction_date = format_date d;
        account_number = a₁;
        goal_number = a₂;
        transaction_id = g₁;
        source = g₂;
      })
parse-generate_misread d a₁ a₂ g₁ g₂ h ha hg l₂ l₃ l₄ =
    parse_of_tracked d h a₁ (generate d (a₁ ++ dash ∷ a₂) (g₁ ++ dash ∷ g₂) [] []) a₂ g₁ g₂ (
      ap (split dash) (
        generate_untracked d (a₁ ++ dash ∷ a₂) (g₁ ++ dash ∷ g₂) ha hg
        ∙ ap (λ s. format_date d ++ dash ∷ s) (append_assoc a₁ (dash ∷ a₂) _))
      ∙ split_tracked (format_date d) a₁ a₂ g₁ g₂ l₂ l₃ l₄)
