-- ===== src/Validation/Distribution.antt =====
-- `validateFundDistribution` of
-- src/services/fund-upload/validators/GoalTransactionValidator.ts on withdrawals.
use xeno_reconciliation.Prelude.{
  ℕ, zero, suc, ◌*◌, ◌<◌, ◌≡◌, refl, true, false, List, [], ◌∷◌, arith, length, nat_beq, Bool-cases,
  inl, inr,
}
use xeno_reconciliation.Prelude.Int.{int_beq, ℤ, pos, negsuc, ◌*ₙ◌, ltb_ℤ, sum_of}
use xeno_reconciliation.Prelude.Text.{Text}
use xeno_reconciliation.Prelude.Dict.{Dict}
use xeno_reconciliation.Validation.Types.{ParsedFundTransaction, ValidationConfig}
use xeno_reconciliation.Validation.GoalGroups.{
  amount_of, percentage_at, is_off_distribution, distribution_errors, validate_fund_distribution,
}

times_negative : (k n d : ℕ) → 0 < k → ltb_ℤ (k *ₙ negsuc n) (pos d) ≡ true
times_negative k n d h = ground (arith, product k n h)
  where
    product : (k n : ℕ) → 0 < k → 0 < k * suc n
    product zero n h = absurd (omega arith)
    product (suc k) n h = omega arith

-- Of a negative total the allowed variance is negative, which no difference is below.
is_off_distribution-negative :
    (config : ValidationConfig) (n percentage : ℕ) (actual : ℤ)
    → 0 < config.fund_distribution_tolerance
    → is_off_distribution config (negsuc n) percentage actual ≡ true
unfolding is_off_distribution
is_off_distribution-negative config n percentage actual h =
    times_negative config.fund_distribution_tolerance n _ h

length-distribution_errors :
    (config : ValidationConfig) (distribution : Dict Text ℕ) (n : ℕ)
    (ts : List ParsedFundTransaction)
    → 0 < config.fund_distribution_tolerance
    → length (distribution_errors config distribution (negsuc n) ts) ≡ length ts
unfolding distribution_errors
length-distribution_errors config distribution n [] h = refl
length-distribution_errors config distribution n (t ∷ ts) h =
    elim (Bool-cases (nat_beq (percentage_at distribution t.fund_code) 0)) [
      | inl absent ↦ rw (absent, length-distribution_errors config distribution n ts h)
      | inr listed ↦ rw (
        listed,
        is_off_distribution-negative config n (percentage_at distribution t.fund_code) (amount_of t)
            h,
        length-distribution_errors config distribution n ts h,
      )
    ]

-- Where the amounts have a negative sum, as those of a withdrawal do, and the tolerance is above 0,
-- the check of the distribution answers one warning for each transaction, whatever its amount.
pub length-validate_fund_distribution :
    (config : ValidationConfig) (ts : List ParsedFundTransaction) (distribution : Dict Text ℕ)
    (n : ℕ)
    → 0 < config.fund_distribution_tolerance
    → sum_of amount_of ts ≡ negsuc n
    → length (validate_fund_distribution config ts distribution) ≡ length ts
unfolding validate_fund_distribution
length-validate_fund_distribution config ts distribution n h total =
    let nonzero : int_beq (negsuc n) (pos 0) ≡ false = ground arith in
    rw (total, nonzero) (length-distribution_errors config distribution n ts h)
