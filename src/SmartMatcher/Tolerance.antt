-- ===== src/SmartMatcher/Tolerance.antt =====
-- The tolerances of src/services/reconciliation/SmartMatcher.ts. Amounts are in hundredths of a
-- shilling, and tolerances in hundredths of that, so that one percent of an amount is the number
-- of the amount itself and every comparison is exact.
use xeno_reconciliation.Prelude.{ℕ, ◌*◌, ◌≤◌, ◌≡◌, ◌↔◌, Bool, true, arith, leb, max}
use xeno_reconciliation.Prelude.Int.{ℤ, abs, pos_part, ◌-ℤ◌}

-- `AMOUNT_TOLERANCE_MIN`, 1000 UGX
abbrev pub amount_tolerance_min : ℕ
amount_tolerance_min = 10_000_000

-- `DATE_WINDOW_DAYS`
abbrev pub date_window_days : ℕ
date_window_days = 30

-- `Math.max(total * AMOUNT_TOLERANCE_PERCENT, AMOUNT_TOLERANCE_MIN)`: of a negative total the
-- minimum is the larger.
unfoldable pub tolerance : ℤ → ℕ
tolerance total = max (pos_part total) amount_tolerance_min

-- `Math.abs(a - b) <= tolerance`
unfoldable pub is_within : ℕ → ℤ → ℤ → Bool
is_within tol a b = leb (100 * abs (a -ℤ b)) tol

pub is_within_iff : (tol : ℕ) (a b : ℤ) → (is_within tol a b ≡ true) ↔ (100 * abs (a -ℤ b) ≤ tol)
unfolding is_within
is_within_iff tol a b = ground arith
