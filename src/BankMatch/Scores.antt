-- ===== src/BankMatch/Scores.antt =====
-- The score of src/services/reconciliation/BankReconciliationMatcher.ts as one subtraction, and the
-- status it comes with.
use xeno_reconciliation.Prelude.{
  ℕ, ◌+◌, ◌-◌, ◌*◌, nat_beq, if◌then◌else◌, ◌≤◌, ◌≡◌, refl, ◌↔◌, inl, inr, Bool, true, false, List,
  [], ◌∷◌, arith, any, all, Bool-cases,
}
use xeno_reconciliation.Prelude.Int.{pos_part, ℤ, pos, ◌-ℤ◌, sum_of, int_laws}
use xeno_reconciliation.Store.{ReconciliationStatus, FundTransaction}
use xeno_reconciliation.BankMatch.Types.{
  VarianceSeverity, low, medium, high, critical, DetectedVariance, ToleranceConfig,
  ParsedBankTransaction, BankMatchResult, amounts_match,
}
use xeno_reconciliation.BankMatch.Detection.{detect_variances}
use xeno_reconciliation.BankMatch.Matcher.{
  is_severe, is_approvable, determine_status, penalty, score_from, calculate_match_score,
  match_transaction, row_amount, total_mismatch, with_variances,
}

-- What the variances take off together.
abbrev penalties : List DetectedVariance → ℕ
penalties [] = 0
penalties (v ∷ vs) = penalty v.severity + penalties vs

score_from-eq :
    (score : ℤ) (vs : List DetectedVariance) → score_from score vs ≡ score -ℤ pos (penalties vs)
unfolding score_from
score_from-eq score [] = omega int_laws
score_from-eq score (v ∷ vs) =
    rw (score_from-eq (score -ℤ pos (penalty v.severity)) vs) (omega int_laws)

pos_part_sub : (a b : ℕ) → pos_part (pos a -ℤ pos b) ≡ a - b
unfolding ◌-ℤ◌
pos_part_sub a b = ground arith

calculate_match_score-penalties :
    (vs : List DetectedVariance) → calculate_match_score vs ≡ 100 - penalties vs
unfolding calculate_match_score
calculate_match_score-penalties [] = omega arith
calculate_match_score-penalties (v ∷ vs) =
    rw (score_from-eq (pos 100) (v ∷ vs)) (pos_part_sub 100 (penalties (v ∷ vs)))

-- How many variances have the severity.
abbrev severity_rank : VarianceSeverity → ℕ
severity_rank low = 0
severity_rank medium = 1
severity_rank high = 2
severity_rank critical = 3

abbrev pub count_of : VarianceSeverity → List DetectedVariance → ℕ
count_of s [] = 0
count_of s (v ∷ vs) =
    (if nat_beq (severity_rank s) (severity_rank v.severity) then 1 else 0) + count_of s vs

penalty-count_of :
    (v : DetectedVariance) (s : VarianceSeverity)
    → v.severity ≡ s
    → penalty s
      ≡ 5 * count_of low (v ∷ [])
        + 15 * count_of medium (v ∷ [])
        + 30 * count_of high (v ∷ [])
        + 50 * count_of critical (v ∷ [])
unfolding penalty
penalty-count_of v low e = rw e (omega arith)
penalty-count_of v medium e = rw e (omega arith)
penalty-count_of v high e = rw e (omega arith)
penalty-count_of v critical e = rw e (omega arith)

penalties-count_of :
    (vs : List DetectedVariance)
    → penalties vs
      ≡ 5 * count_of low vs
        + 15 * count_of medium vs
        + 30 * count_of high vs
        + 50 * count_of critical vs
penalties-count_of [] = omega arith
penalties-count_of (v ∷ vs) =
    omega (arith, penalty-count_of v v.severity refl, penalties-count_of vs)

-- The score is 100 less 5 for each variance of low severity, 15 for each of medium, 30 for each of
-- high and 50 for each of critical severity, and 0 where these are more than 100.
pub calculate_match_score_lem :
    (vs : List DetectedVariance)
    → calculate_match_score vs
      ≡ 100
        - (5 * count_of low vs
            + 15 * count_of medium vs
            + 30 * count_of high vs
            + 50 * count_of critical vs)
calculate_match_score_lem vs = rw (calculate_match_score-penalties vs, penalties-count_of vs) refl

penalty_positive : (s : VarianceSeverity) → 5 ≤ penalty s
unfolding penalty
penalty_positive s = ground arith

-- A full score without variances only.
full_score : (vs : List DetectedVariance) → calculate_match_score vs ≡ 100 → vs ≡ []
full_score [] h = refl
full_score (v ∷ vs) h =
    absurd (omega (arith, calculate_match_score-penalties (v ∷ vs), penalty_positive v.severity))

-- Whether the answer is approved without review, told from its status.
abbrev pub is_clear : ReconciliationStatus → Bool
is_clear ReconciliationStatus.matched = true
is_clear ReconciliationStatus.auto_approved = true
is_clear _ = false

determine_status-is_clear :
    (vs : List DetectedVariance) → (determine_status vs).1 ≡ is_clear (determine_status vs).0
unfolding determine_status
determine_status-is_clear [] = refl
determine_status-is_clear (v ∷ vs) = elim (Bool-cases (any is_severe (v ∷ vs))) [
  | inl severe ↦ rw severe
  | inr mild ↦ elim (Bool-cases (all is_approvable (v ∷ vs))) [
    | inl approved ↦ rw (mild, approved)
    | inr held ↦ rw (mild, held)
  ]
]

determine_status-matched :
    (vs : List DetectedVariance) → (determine_status vs).0 ≡ ReconciliationStatus.matched → vs ≡ []
unfolding determine_status
determine_status-matched [] h = refl
determine_status-matched (v ∷ vs) h = elim (Bool-cases (any is_severe (v ∷ vs))) [
  | inl severe ↦ absurd (review (rw severe at h))
  | inr mild ↦ elim (Bool-cases (all is_approvable (v ∷ vs))) [
    | inl approved ↦ absurd (approval (rw (mild, approved) at h))
    | inr held ↦ absurd (review (rw (mild, held) at h))
  ]
]
  where
    review : ReconciliationStatus.manual_review ≡ ReconciliationStatus.matched → ⊥
    review e = cc

    approval : ReconciliationStatus.auto_approved ≡ ReconciliationStatus.matched → ⊥
    approval e = cc

-- How the parts of an answer go together.
pub record IsConsistent (r : BankMatchResult) : Type 0 where
  pub bounded : r.match_score ≤ 100
  pub approval : r.auto_approved ≡ is_clear r.status
  pub full : (r.match_score ≡ 100) ↔ (r.status ≡ ReconciliationStatus.matched)
  pub exact : (r.status ≡ ReconciliationStatus.matched) ↔ (r.variances ≡ [])

status_of_none :
    (vs : List DetectedVariance) → vs ≡ [] → (determine_status vs).0 ≡ ReconciliationStatus.matched
unfolding determine_status
status_of_none vs h = rw h

score_of_none : (vs : List DetectedVariance) → vs ≡ [] → calculate_match_score vs ≡ 100
unfolding calculate_match_score
score_of_none vs h = rw h

with_variances-IsConsistent :
    (code : List ℕ) (vs : List DetectedVariance) → IsConsistent (with_variances code vs)
with_variances-IsConsistent code vs = record {
  bounded = omega (arith, calculate_match_score-penalties vs);
  approval = determine_status-is_clear vs;
  full = (
    (λ h. status_of_none vs (full_score vs h)),
    (λ h. score_of_none vs (determine_status-matched vs h)),
  );
  exact = (determine_status-matched vs, status_of_none vs);
}

total_mismatch-IsConsistent :
    (tolerance : ToleranceConfig) (bank : ParsedBankTransaction) (code : List ℕ) (total : ℤ)
    → IsConsistent (total_mismatch tolerance bank code total)
unfolding total_mismatch
total_mismatch-IsConsistent tolerance bank code total = record {
  bounded = omega arith;
  approval = refl;
  full = ((λ h. absurd (omega arith)), (λ h. absurd (review h)));
  exact = ((λ h. absurd (review h)), (λ h. absurd (listed h)));
}
  where
    review : ReconciliationStatus.variance_detected ≡ ReconciliationStatus.matched → ⊥
    review e = cc

    listed : {v : DetectedVariance} → v ∷ [] ≡ [] → ⊥
    listed e = cc

-- Every answer of the matcher is consistent: its score is at most 100; it is approved exactly where
-- its status is matched or auto-approved; and its score is 100 exactly where the status is matched,
-- which is exactly where it lists no variance.
pub match_transaction-IsConsistent :
    (tolerance : ToleranceConfig) (bank : ParsedBankTransaction) (fts : List FundTransaction)
    → IsConsistent (match_transaction tolerance bank fts)
unfolding match_transaction
match_transaction-IsConsistent tolerance bank [] = record {
  bounded = omega arith;
  approval = refl;
  full = ((λ h. absurd (omega arith)), (λ h. cc));
  exact = ((λ h. cc), (λ h. cc));
}
match_transaction-IsConsistent tolerance bank (ft ∷ fts) =
    elim (Bool-cases (amounts_match tolerance bank.total_amount (sum_of row_amount (ft ∷ fts)))) [
      | inl close ↦ rw close (
          with_variances-IsConsistent ft.goal_transaction_code
            (detect_variances tolerance bank ft fts))
      | inr far ↦ rw far (
          total_mismatch-IsConsistent tolerance bank ft.goal_transaction_code
            (sum_of row_amount (ft ∷ fts)))
    ]
