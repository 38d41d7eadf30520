-- ===== src/SmartMatcher/Refines.antt =====
-- Each pass of src/services/reconciliation/SmartMatcher.ts takes only steps of `Steps`.
pub mod Manual
pub mod Splits
pub mod Run
use mathlib.Core.List.{Memᴰ}
use xeno_reconciliation.Prelude.{
  ◌≡◌, refl, sym, ◌∙◌, inl, inr, Bool, true, false, not, ◌&&◌, none, some, List, [], ◌∷◌, ◌++◌, map,
  arith, ◌==◌, ==_iff, nat_eq, list_eq, option_eq, filter_by, includes, length, ltb, leb, all, drop,
  if◌then◌else◌, Bool-cases, Option-cases, All, All-append, All-mono, All-filter_by, All-listed,
}
use xeno_reconciliation.Prelude.Text.{Text, split, starts_with}
use xeno_reconciliation.Prelude.Dict.{Dict}
use xeno_reconciliation.Store.{BankTransaction, type_eq, type_beq_iff}
use xeno_reconciliation.SmartMatcher.Tolerance.{date_window_days}
use xeno_reconciliation.SmartMatcher.Groups.{Group}
use xeno_reconciliation.SmartMatcher.Steps.{push_match}
use xeno_reconciliation.SmartMatcher.Passes.{
  Matching, no_matches, is_taken, is_open, has_same_id, amounts_agree, match_exact, exact_step,
  exact_pass, fits_amount, match_amount, amount_step, amount_pass, days_apart,
}
use xeno_reconciliation.SmartMatcher.Steps.{
  Steps, Allowed, by_id, by_amount, rest, add, Steps-trans, IsFreeBank, IsFreeGroup,
}

module _ (banks : List BankTransaction) (groups : List Group) where
  abbrev pub AreBanks : List BankTransaction → Type 0
  AreBanks = All (λ b. Memᴰ b banks)

  abbrev pub AreGroups : List Group → Type 0
  AreGroups = All (λ g. Memᴰ g groups)

  match_exact-Steps :
      (b : BankTransaction) (s : Matching) (gs : List Group)
      → IsFreeBank banks groups s b
      → All (λ g. Memᴰ g groups × ((has_same_id b g && is_open s g) ≡ true)) gs
      → Steps banks groups s (match_exact b gs s)
  match_exact-Steps b s [] free h = rest
  match_exact-Steps b s (g ∷ gs) free ((listed, passed), h) =
      elim (Bool-cases (amounts_agree b g)) [
        | inl near ↦ rw near (
            add rest (
              by_id b g free (record { listed = listed; free = ground arith })
                ((==_iff g.transaction_id (some b.transaction_id)).0 (ground arith))
                ((==_iff g.type b.transaction_type).0 (ground arith)) near))
        | inr far ↦ rw far rest
      ]

  exact_step-Steps :
      (gs : List Group) (b : BankTransaction) (s : Matching)
      → AreGroups gs
      → Memᴰ b banks
      → Steps banks groups s (exact_step gs b s)
  unfolding exact_step
  exact_step-Steps gs b s hg hb = elim (Bool-cases (is_taken s b)) [
    | inl taken ↦ rw taken rest
    | inr untaken ↦ rw untaken (
        match_exact-Steps b s _ (record { listed = hb; untaken = untaken })
          (All-filter_by (λ g. Memᴰ g groups) (λ g. has_same_id b g && is_open s g) gs hg))
  ]

  pub exact_pass-Steps :
      (gs : List Group) (bs : List BankTransaction) (s : Matching)
      → AreGroups gs
      → AreBanks bs
      → Steps banks groups s (exact_pass gs bs s)
  unfolding exact_pass
  exact_pass-Steps gs [] s hg hb = rest
  exact_pass-Steps gs (b ∷ bs) s hg (here, hb) =
      Steps-trans banks groups (exact_step-Steps gs b s hg here)
        (exact_pass-Steps gs bs (exact_step gs b s) hg hb)

  match_amount-Steps :
      (b : BankTransaction) (s : Matching) (gs : List Group)
      → IsFreeBank banks groups s b
      → All (λ g. Memᴰ g groups × (fits_amount s b g ≡ true)) gs
      → Steps banks groups s (match_amount b gs s)
  match_amount-Steps b s [] free h = rest
  match_amount-Steps b s (g ∷ gs) free ((listed, fitting), h) = add rest (
      by_amount b g free (record { listed = listed; free = ground arith })
        ((==_iff g.type b.transaction_type).0 (ground arith)) (ground arith) (ground arith))

  amount_step-Steps :
      (gs : List Group) (b : BankTransaction) (s : Matching)
      → AreGroups gs
      → Memᴰ b banks
      → Steps banks groups s (amount_step gs b s)
  unfolding amount_step
  amount_step-Steps gs b s hg hb = elim (Bool-cases (is_taken s b)) [
    | inl taken ↦ rw taken rest
    | inr untaken ↦ rw untaken (
        match_amount-Steps b s _ (record { listed = hb; untaken = untaken })
          (All-filter_by (λ g. Memᴰ g groups) (fits_amount s b) gs hg))
  ]

  pub amount_pass-Steps :
      (gs : List Group) (bs : List BankTransaction) (s : Matching)
      → AreGroups gs
      → AreBanks bs
      → Steps banks groups s (amount_pass gs bs s)
  unfolding amount_pass
  amount_pass-Steps gs [] s hg hb = rest
  amount_pass-Steps gs (b ∷ bs) s hg (here, hb) =
      Steps-trans banks groups (amount_step-Steps gs b s hg here)
        (amount_pass-Steps gs bs (amount_step gs b s) hg hb)
