-- ===== src/Upload/Summary/Totals.antt =====
-- The totals of `calculateFinancialSummary` as sums over the transactions.
use xeno_reconciliation.Prelude.{
  ◌+◌, ◌≡◌, refl, sym, ap, ◌∙◌, Bool, true, false, not, ◌&&◌, none, some, List, [], ◌∷◌, ◌++◌,
  if◌then◌else◌, ◌==◌, nat_eq, list_eq, filter_by, length, Bool-cases, inl, inr, ==_iff, ==_refl,
  arith,
}
use xeno_reconciliation.Prelude.Int.{
  ℤ, pos, ◌+ℤ◌, sum_of, sum_of-cons, sum_of-nil, +ℤ_assoc, int_laws,
}
use xeno_reconciliation.Prelude.Text.{Text}
use xeno_reconciliation.Prelude.Dict.{Dict, lookup, has, modify, ensure}
use xeno_reconciliation.Validation.Types.{ParsedFundTransaction}
use xeno_reconciliation.Validation.Fields.{is_deposit}
use xeno_reconciliation.Validation.GoalGroups.{amount_of}
use xeno_reconciliation.Upload.Records.{FundBreakdown, FinancialSummary}
use xeno_reconciliation.Upload.Summary.{
  empty_breakdown, is_outflow, units_of, add_to_breakdown, add_transaction, summary_from,
  empty_summary, calculate_financial_summary,
}

-- A withdrawal or a redemption.
abbrev pub is_paid_out : ParsedFundTransaction → Bool
is_paid_out t = not (is_deposit t) && is_outflow t

abbrev pub entry_at : Text → Dict Text FundBreakdown → FundBreakdown
entry_at code d = elim (lookup code d) [ none ↦ empty_breakdown | some b ↦ b ]

module _ (k code : Text) (f : FundBreakdown → FundBreakdown) where
  entry_at-modify :
      (d : Dict Text FundBreakdown)
      → has k d ≡ true
      → entry_at code (modify k f d) ≡ (if k == code then f (entry_at code d) else entry_at code d)
  entry_at-modify [] h = ground (arith, h)
  entry_at-modify ((j, b) ∷ d) h =
      ground (arith, h, entry_at-modify d, ==_iff j k, ==_iff j code, ==_iff k code)

  entry_at-append :
      (d : Dict Text FundBreakdown)
      → has k d ≡ false
      → entry_at code (modify k f (d ++ (k, empty_breakdown) ∷ []))
        ≡ (if k == code then f (entry_at code d) else entry_at code d)
  entry_at-append [] h = ground (arith, ==_refl k)
  entry_at-append ((j, b) ∷ d) h =
      ground (arith, h, entry_at-append d, ==_iff j k, ==_iff j code, ==_iff k code)

  entry_at-ensure :
      (d : Dict Text FundBreakdown)
      → entry_at code (modify k f (ensure k empty_breakdown d))
        ≡ (if k == code then f (entry_at code d) else entry_at code d)
  entry_at-ensure d = elim (Bool-cases (has k d)) [
    | inl there ↦ rw there (entry_at-modify d there)
    | inr missing ↦ rw missing (entry_at-append d missing)
  ]

-- The sums of a list of transactions of one fund.
abbrev pub sums_of : List ParsedFundTransaction → FundBreakdown
sums_of own = record {
  transactions = length own;
  total_amount = sum_of amount_of own;
  total_units = sum_of units_of own;
  deposits = length (filter_by is_deposit own);
  withdrawals = length (filter_by is_paid_out own);
}

-- Both entries, part by part.
abbrev plus : FundBreakdown → FundBreakdown → FundBreakdown
plus a b = record {
  transactions = a.transactions + b.transactions;
  total_amount = a.total_amount +ℤ b.total_amount;
  total_units = a.total_units +ℤ b.total_units;
  deposits = a.deposits + b.deposits;
  withdrawals = a.withdrawals + b.withdrawals;
}

module _ (s : FinancialSummary) (t : ParsedFundTransaction) where
  breakdown-add :
      (add_transaction s t).fund_breakdown
      ≡ modify t.fund_code
          (add_to_breakdown t)
          (ensure t.fund_code empty_breakdown s.fund_breakdown)
  unfolding add_transaction
  breakdown-add = elim (Bool-cases (is_deposit t)) [
    | inl e ↦ rw (add_transaction, e) refl
    | inr e ↦ elim (Bool-cases (is_outflow t)) [
      | inl k ↦ rw (add_transaction, e, k) refl
      | inr k ↦ rw (add_transaction, e, k) refl
    ]
  ]

  -- The four totals after one more transaction.
  totals-add :
      ((add_transaction s t).total_deposit_amount
        ≡ (if is_deposit t then s.total_deposit_amount +ℤ amount_of t else s.total_deposit_amount))
      × ((add_transaction s t).total_units_issued
          ≡ (if is_deposit t then s.total_units_issued +ℤ units_of t else s.total_units_issued))
      × ((add_transaction s t).total_withdrawal_amount ≡ (
          if is_paid_out t
          then s.total_withdrawal_amount +ℤ amount_of t
          else s.total_withdrawal_amount))
      × ((add_transaction s t).total_units_redeemed ≡ (
          if is_paid_out t then s.total_units_redeemed +ℤ units_of t else s.total_units_redeemed))
  unfolding add_transaction
  totals-add = elim (Bool-cases (is_deposit t)) [
    | inl e ↦ rw (add_transaction, e) (refl, refl, refl, refl)
    | inr e ↦ elim (Bool-cases (is_outflow t)) [
      | inl k ↦ rw (add_transaction, e, k) (refl, refl, refl, refl)
      | inr k ↦ rw (add_transaction, e, k) (refl, refl, refl, refl)
    ]
  ]

plus-add :
    (a : FundBreakdown) (t : ParsedFundTransaction) (own : List ParsedFundTransaction)
    → plus (add_to_breakdown t a) (sums_of own) ≡ plus a (sums_of (t ∷ own))
unfolding add_to_breakdown
plus-add a t own i =
    let count : a.transactions + 1 + length own ≡ a.transactions + length (t ∷ own) = omega arith in
    let amount =
      +ℤ_assoc a.total_amount (amount_of t) (sum_of amount_of own)
      ∙ ap (λ n. a.total_amount +ℤ n) (sym (sum_of-cons amount_of t own)) in
    let units =
      +ℤ_assoc a.total_units (units_of t) (sum_of units_of own)
      ∙ ap (λ n. a.total_units +ℤ n) (sym (sum_of-cons units_of t own)) in
    let deposits : (if is_deposit t then a.deposits + 1 else a.deposits)
          + length (filter_by is_deposit own)
        ≡ a.deposits + length (filter_by is_deposit (t ∷ own)) =
      ground (arith) in
    let withdrawals : (if is_deposit t
            then a.withdrawals
            else (if is_outflow t then a.withdrawals + 1 else a.withdrawals))
          + length (filter_by is_paid_out own)
        ≡ a.withdrawals + length (filter_by is_paid_out (t ∷ own)) =
      ground (arith) in
    record {
      transactions = count i;
      total_amount = amount i;
      total_units = units i;
      deposits = deposits i;
      withdrawals = withdrawals i;
    }

zero_right : (n : ℤ) → n ≡ n +ℤ pos 0
zero_right n = omega int_laws

zero_left : (n : ℤ) → pos 0 +ℤ n ≡ n
zero_left n = omega int_laws

-- A total that grows by `f` at the transactions that pass the test.
total-summary_from :
    (field : FinancialSummary → ℤ) (f : ParsedFundTransaction → ℤ)
    (p : ParsedFundTransaction → Bool)
    → ((s : FinancialSummary) (t : ParsedFundTransaction)
        → field (add_transaction s t) ≡ (if p t then field s +ℤ f t else field s))
    → (s : FinancialSummary) (ts : List ParsedFundTransaction)
    → field (summary_from s ts) ≡ field s +ℤ sum_of f (filter_by p ts)
unfolding summary_from
total-summary_from field f p step s [] = rw (sum_of-nil f) (zero_right (field s))
total-summary_from field f p step s (t ∷ ts) =
    let rest = total-summary_from field f p step (add_transaction s t) ts in
    elim (Bool-cases (p t)) [
      | inl e ↦
          rest
          ∙ rw (step s t, e)
              (+ℤ_assoc (field s) (f t) (sum_of f (filter_by p ts))
                ∙ ap (λ n. field s +ℤ n) (sym (sum_of-cons f t (filter_by p ts))))
      | inr e ↦ rest ∙ rw (step s t, e) refl
    ]

breakdown-summary_from :
    (code : Text) (s : FinancialSummary) (ts : List ParsedFundTransaction)
    → entry_at code (summary_from s ts).fund_breakdown
      ≡ plus (entry_at code s.fund_breakdown) (sums_of (filter_by (λ t. t.fund_code == code) ts))
unfolding summary_from
breakdown-summary_from code s [] = plus_nothing (entry_at code s.fund_breakdown)
  where
    plus_nothing : (b : FundBreakdown) → b ≡ plus b (sums_of [])
    plus_nothing b i =
        let amount =
          zero_right b.total_amount ∙ ap (λ n. b.total_amount +ℤ n) (sym (sum_of-nil amount_of)) in
        let units =
          zero_right b.total_units ∙ ap (λ n. b.total_units +ℤ n) (sym (sum_of-nil units_of)) in
        let transactions : b.transactions ≡ b.transactions + 0 = omega arith in
        let deposits : b.deposits ≡ b.deposits + 0 = omega arith in
        let withdrawals : b.withdrawals ≡ b.withdrawals + 0 = omega arith in
        record {
          transactions = transactions i;
          total_amount = amount i;
          total_units = units i;
          deposits = deposits i;
          withdrawals = withdrawals i;
        }
breakdown-summary_from code s (t ∷ ts) =
    let rest = breakdown-summary_from code (add_transaction s t) ts in
    let added =
      ap (entry_at code) (breakdown-add s t)
      ∙ entry_at-ensure t.fund_code code (add_to_breakdown t) s.fund_breakdown in
    let own = filter_by (λ u. u.fund_code == code) ts in
    elim (Bool-cases (t.fund_code == code)) [
      | inl e ↦ rest ∙ rw (added, e) (plus-add (entry_at code s.fund_breakdown) t own)
      | inr e ↦ rest ∙ rw (added, e) refl
    ]

plus_empty : (b : FundBreakdown) → plus empty_breakdown b ≡ b
plus_empty b i =
    let amount = zero_left b.total_amount in
    let units = zero_left b.total_units in
    let transactions : 0 + b.transactions ≡ b.transactions = omega arith in
    let deposits : 0 + b.deposits ≡ b.deposits = omega arith in
    let withdrawals : 0 + b.withdrawals ≡ b.withdrawals = omega arith in
    record {
      transactions = transactions i;
      total_amount = amount i;
      total_units = units i;
      deposits = deposits i;
      withdrawals = withdrawals i;
    }

-- The financial summary is what it says: the deposits sum the amounts and the units of the
-- deposits, the withdrawals those of the withdrawals and redemptions, and the entry of each fund
-- has the count, the sums of amounts and units, and the counts of deposits and of withdrawals, of
-- the transactions of that fund; a fund without transactions has no entry or an empty one.
pub calculate_financial_summary_lem :
    (ts : List ParsedFundTransaction)
    → let s = calculate_financial_summary ts in
      (s.total_deposit_amount ≡ sum_of amount_of (filter_by is_deposit ts))
      × (s.total_units_issued ≡ sum_of units_of (filter_by is_deposit ts))
      × (s.total_withdrawal_amount ≡ sum_of amount_of (filter_by is_paid_out ts))
      × (s.total_units_redeemed ≡ sum_of units_of (filter_by is_paid_out ts))
      × ((code : Text)
          → entry_at code s.fund_breakdown ≡ sums_of (filter_by (λ t. t.fund_code == code) ts))
unfolding calculate_financial_summary
calculate_financial_summary_lem ts = (
  total-summary_from (λ s. s.total_deposit_amount) amount_of is_deposit
        (λ s t. let (d, i, w, r) = totals-add s t in d) empty_summary ts
      ∙ zero_left _,
  total-summary_from (λ s. s.total_units_issued) units_of is_deposit
        (λ s t. let (d, i, w, r) = totals-add s t in i) empty_summary ts
      ∙ zero_left _,
  total-summary_from (λ s. s.total_withdrawal_amount) amount_of is_paid_out
        (λ s t. let (d, i, w, r) = totals-add s t in w) empty_summary ts
      ∙ zero_left _,
  total-summary_from (λ s. s.total_units_redeemed) units_of is_paid_out
        (λ s t. let (d, i, w, r) = totals-add s t in r) empty_summary ts
      ∙ zero_left _,
  λ code. breakdown-summary_from code empty_summary ts ∙ plus_empty _,
)
