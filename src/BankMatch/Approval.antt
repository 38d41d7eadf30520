-- ===== src/BankMatch/Approval.antt =====
-- What an approval without review rests on, and which differences are listed.
use xeno_reconciliation.Prelude.{
  if◌then◌else◌, ◌≢◌, ◌↔◌, sym, ◌∙◌, option_eq, list_eq, nat_eq, ==_iff, any-append, some, ◌&&◌,
  includes, ◌==◌, ℕ, ◌*◌, ◌≤◌, ◌<◌, ◌≡◌, refl, ◌⊎◌, inl, inr, Bool, true, false, List, [], ◌∷◌,
  arith, any, Bool-cases, All,
}
use xeno_reconciliation.Prelude.Int.{ℤ, pos, ◌-ℤ◌, abs, sum_of, int_eq, int_beq_iff}
use xeno_reconciliation.Prelude.Text.{Text, codes}
use xeno_reconciliation.Prelude.Dict.{Dict, insert, lookup-insert}
use xeno_reconciliation.Store.{FundTransaction}
use xeno_reconciliation.BankMatch.Types.{
  DetectedVariance, ToleranceConfig, ParsedBankTransaction, amounts_match,
}
use xeno_reconciliation.BankMatch.Detection.{
  exceeds, detect_variances, date_variances, date_difference_of, day_ms, fund_variance,
  fund_variances, fund_amounts_from, fund_codes, bank_fund_amount, amount_at,
}
use xeno_reconciliation.BankMatch.Matcher.{row_amount}

-- A difference that is approved without review: of nothing on the fund side, or at most the
-- percentage, or at most twice the percentage and below the lowest threshold.
abbrev pub IsSmall : ToleranceConfig → ℤ → ℤ → Type 0
IsSmall tolerance bank_amount fund_amount =
    let difference = abs (bank_amount -ℤ fund_amount) in
    let percent = tolerance.fund_distribution_percentage in
    (fund_amount ≡ pos 0)
    ⊎ ((100 * difference ≤ abs fund_amount * percent)
        ⊎ ((100 * difference ≤ abs fund_amount * (percent * 2))
            × (difference < tolerance.severity_thresholds.low_below)))

-- What must hold of the fund transactions for an approval without review.
pub record IsReconciled (tolerance : ToleranceConfig) (bank : ParsedBankTransaction)
    (ft : FundTransaction) (fts : List FundTransaction) : Type 0 where
  pub total : amounts_match tolerance bank.total_amount (sum_of row_amount (ft ∷ fts)) ≡ true
  pub date :
      date_difference_of bank.transaction_date (day_ms * ft.transaction_date) ≤ tolerance.date_days
  pub funds :
      All
        (λ code.
          IsSmall tolerance
            (bank_fund_amount bank code)
            (amount_at (fund_amounts_from [] (ft ∷ fts)) code))
        fund_codes

-- The fund codes of the listed fund variances.
abbrev pub names_fund : Text → DetectedVariance → Bool
names_fund code v = v.fund_code == some code

fund_variance-named :
    (tolerance : ToleranceConfig) (code other : Text) (bank_amount fund_amount : ℤ)
    → any (names_fund code) (fund_variance tolerance other bank_amount fund_amount)
      ≡ (other == code)
        && exceeds tolerance.fund_distribution_percentage
            (abs (bank_amount -ℤ fund_amount))
            fund_amount
unfolding fund_variance
fund_variance-named tolerance code other bank_amount fund_amount =
    elim (Bool-cases (
      exceeds tolerance.fund_distribution_percentage (abs (bank_amount -ℤ fund_amount))
        fund_amount)) [ inl large ↦ rw large (ground arith) | inr small ↦ rw small (ground arith) ]

fund_variances-named :
    (tolerance : ToleranceConfig) (bank : ParsedBankTransaction) (amounts : Dict Text ℤ)
    (code : Text) (fund_list : List Text)
    → any (names_fund code) (fund_variances tolerance bank amounts fund_list)
      ≡ includes fund_list code
        && exceeds tolerance.fund_distribution_percentage
            (abs (bank_fund_amount bank code -ℤ amount_at amounts code))
            (amount_at amounts code)
unfolding fund_variances
fund_variances-named tolerance bank amounts code [] = refl
fund_variances-named tolerance bank amounts code (other ∷ more) =
    rw
      (
        any-append (names_fund code)
            (fund_variance tolerance other (bank_fund_amount bank other) (amount_at amounts other))
            (fund_variances tolerance bank amounts more),
        fund_variance-named tolerance code other (bank_fund_amount bank other)
            (amount_at amounts other),
        fund_variances-named tolerance bank amounts code more,
      )
      (elim (Bool-cases (other == code)) [
        | inl same ↦ rw (same, (==_iff other code).0 same) (ground arith)
        | inr different ↦ rw different
      ])

date_variances-unnamed :
    (tolerance : ToleranceConfig) (code : Text) (bank fund : ℕ)
    → any (names_fund code) (date_variances tolerance bank fund) ≡ false
unfolding date_variances
date_variances-unnamed tolerance code bank fund = ground arith

detect_variances-fund :
    (tolerance : ToleranceConfig) (bank : ParsedBankTransaction) (ft : FundTransaction)
    (fts : List FundTransaction) (code : Text)
    → includes fund_codes code ≡ true
    → any (names_fund code) (detect_variances tolerance bank ft fts) ≡ (
        let fund_amount = amount_at (fund_amounts_from [] (ft ∷ fts)) code in
        exceeds tolerance.fund_distribution_percentage
          (abs (bank_fund_amount bank code -ℤ fund_amount))
          fund_amount)
unfolding detect_variances
detect_variances-fund tolerance bank ft fts code h =
    let amounts = fund_amounts_from [] (ft ∷ fts) in
    rw (
      any-append (names_fund code)
          (date_variances tolerance bank.transaction_date (day_ms * ft.transaction_date))
          (fund_variances tolerance bank amounts fund_codes),
      date_variances-unnamed tolerance code bank.transaction_date (day_ms * ft.transaction_date),
      fund_variances-named tolerance bank amounts code fund_codes,
      h,
    )

-- The amount of the last fund transaction of the fund, and 0 where there is none.
abbrev pub last_amount : Text → List FundTransaction → ℤ
last_amount code [] = pos 0
last_amount code (ft ∷ fts) =
    if any (λ later. later.fund_code == code) fts
    then last_amount code fts
    else (if ft.fund_code == code then ft.amount else pos 0)

amount_at-fund_amounts_from :
    (code : Text) (amounts : Dict Text ℤ) (fts : List FundTransaction)
    → amount_at (fund_amounts_from amounts fts) code ≡ (
        if any (λ ft. ft.fund_code == code) fts
        then last_amount code fts
        else amount_at amounts code)
unfolding fund_amounts_from
amount_at-fund_amounts_from code amounts [] = refl
amount_at-fund_amounts_from code amounts (ft ∷ fts) =
    amount_at-fund_amounts_from code (insert ft.fund_code ft.amount amounts) fts
    ∙ ground (arith, lookup-insert ft.fund_code code ft.amount amounts)

last_amount-none :
    (code : Text) (fts : List FundTransaction)
    → any (λ ft. ft.fund_code == code) fts ≡ false
    → last_amount code fts ≡ pos 0
last_amount-none code [] h = refl
last_amount-none code (ft ∷ fts) h = ground (arith, h)

amount_at-last :
    (code : Text) (fts : List FundTransaction)
    → amount_at (fund_amounts_from [] fts) code ≡ last_amount code fts
amount_at-last code fts =
    amount_at-fund_amounts_from code [] fts
    ∙ elim (Bool-cases (any (λ ft. ft.fund_code == code) fts)) [
      | inl e ↦ rw e refl
      | inr e ↦ rw e (sym (last_amount-none code fts e))
    ]

exceeds_iff :
    (percent : ℕ) (amount fund_amount : ℤ)
    → (exceeds percent (abs (amount -ℤ fund_amount)) fund_amount ≡ true)
      ↔ ((fund_amount ≢ pos 0) × (percent * abs fund_amount < 100 * abs (amount -ℤ fund_amount)))
exceeds_iff percent amount fund_amount = ground (arith, int_beq_iff fund_amount (pos 0))

-- A variance is listed for the fund exactly where the amount of its last fund transaction is not 0
-- and the bank's amount is more than the percentage of it away.
abbrev pub ListedFor :
    ToleranceConfig
    → ParsedBankTransaction
    → FundTransaction
    → List FundTransaction
    → Text
    → ℤ
    → Type 0
ListedFor tolerance bank ft fts code amount =
    let fund_amount = last_amount code (ft ∷ fts) in
    (any (names_fund code) (detect_variances tolerance bank ft fts) ≡ true) ↔ (
      (fund_amount ≢ pos 0)
      × (tolerance.fund_distribution_percentage * abs fund_amount
          < 100 * abs (amount -ℤ fund_amount)))

listed_for :
    (tolerance : ToleranceConfig) (bank : ParsedBankTransaction) (ft : FundTransaction)
    (fts : List FundTransaction) (code : Text) (amount : ℤ)
    → includes fund_codes code ≡ true
    → bank_fund_amount bank code ≡ amount
    → ListedFor tolerance bank ft fts code amount
listed_for tolerance bank ft fts code amount listed same =
    rw
      (
        detect_variances-fund tolerance bank ft fts code listed,
        same,
        amount_at-last code (ft ∷ fts),
      )
      (exceeds_iff tolerance.fund_distribution_percentage amount (last_amount code (ft ∷ fts)))

-- A variance is listed for each of the four funds exactly where the amount of its last fund
-- transaction is not 0, and the amount that the bank transaction has for this fund differs from it
-- by more than the percentage of it.
pub detect_variances-exceeds :
    (tolerance : ToleranceConfig) (bank : ParsedBankTransaction) (ft : FundTransaction)
    (fts : List FundTransaction)
    → ListedFor tolerance bank ft fts (codes "XUMMF") bank.xummf_amount
      × ListedFor tolerance bank ft fts (codes "XUBF") bank.xubf_amount
      × ListedFor tolerance bank ft fts (codes "XUDEF") bank.xudef_amount
      × ListedFor tolerance bank ft fts (codes "XUREF") bank.xuref_amount
unfolding bank_fund_amount
detect_variances-exceeds tolerance bank ft fts = (
  listed_for tolerance bank ft fts (codes "XUMMF") bank.xummf_amount refl refl,
  listed_for tolerance bank ft fts (codes "XUBF") bank.xubf_amount refl refl,
  listed_for tolerance bank ft fts (codes "XUDEF") bank.xudef_amount refl refl,
  listed_for tolerance bank ft fts (codes "XUREF") bank.xuref_amount refl refl,
)
