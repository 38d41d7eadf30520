-- ===== src/Validation/Strings.antt =====
-- `clean`, `isEmpty` and the number formats of src/utils/stringUtils.ts.
use xeno_reconciliation.Prelude.{
  ℕ, zero, suc, Bool, true, false, ◌&&◌, Option, none, some, [], ◌∷◌, if◌then◌else◌, ◌==◌, nat_eq,
  all, leb, length,
}
use xeno_reconciliation.Prelude.Text.{Text, is_space, trim, is_digit}

-- `s.replace(/\s+/g, ' ')`, with whether the last character was a space
unfoldable pub collapse : Bool → Text → Text
collapse in_run [] = []
collapse in_run (c ∷ s) =
    let after_space = collapse true s in
    let after_other = collapse false s in
    if is_space c then (if in_run then after_space else 32 ∷ after_space) else c ∷ after_other

unfoldable pub clean : Text → Text
unfolding collapse trim
clean s = collapse false (trim s)

unfoldable pub is_empty : Text → Bool
unfolding clean
is_empty s = elim (clean s) [ [] ↦ true | c ∷ t ↦ false ]

-- What comes after three digits and a dash.
abbrev after_prefix : Text → Option Text
after_prefix (a ∷ b ∷ c ∷ d ∷ s) =
    if is_digit a && is_digit b && is_digit c && d == b'-' then some s else none
after_prefix _ = none

-- `/^\d{3}-\d{9,}$/`
unfoldable pub is_valid_account_number : Text → Bool
unfolding clean
is_valid_account_number s = elim (after_prefix (clean s)) [
  | none ↦ false
  | some t ↦ all is_digit t && leb 9 (length t)
]

-- `\d{9,}[a-z]$`, of which at least `least` digits are still to come
unfoldable pub ends_in_letter : ℕ → Text → Bool
ends_in_letter least [] = false
ends_in_letter zero (c ∷ []) = leb b'a' c && leb c b'z'
ends_in_letter (suc least) (c ∷ []) = false
ends_in_letter zero (c ∷ d ∷ s) = is_digit c && ends_in_letter zero (d ∷ s)
ends_in_letter (suc least) (c ∷ d ∷ s) = is_digit c && ends_in_letter least (d ∷ s)

-- `/^\d{3}-\d{9,}[a-z]$/`
unfoldable pub is_valid_goal_number : Text → Bool
unfolding clean ends_in_letter
is_valid_goal_number s = elim (after_prefix (clean s)) [
  | none ↦ false
  | some t ↦ ends_in_letter 9 t
]
