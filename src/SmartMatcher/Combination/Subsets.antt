-- ===== src/SmartMatcher/Combination/Subsets.antt =====
-- What the loop of `findCombinationSum` over bit masks answers.
use Prim.Native.Nat.{◌^◌}
use native.Mathlib.Nat.{two-pow-succ}
use xeno_reconciliation.Prelude.{
  ℕ, zero, suc, ◌+◌, ◌*◌, ◌/◌, ◌%◌, ◌≤◌, ◌<◌, ◌≡◌, refl, sym, ap, ◌∙◌, ◌≢◌, ◌↔◌, inl, inr, Bool,
  true, false, ◌&&◌, List, [], ◌∷◌, length, ltb, nat_beq, if◌then◌else◌, arith, Bool-cases,
  nat_beq_iff,
}
use xeno_reconciliation.Prelude.Int.{ℤ, sum_of}
use xeno_reconciliation.SmartMatcher.Tolerance.{is_within}
use xeno_reconciliation.SmartMatcher.Combination.{Item, amount_of, subset_of, first_subset}
use xeno_reconciliation.SmartMatcher.Combination.Picked.{Picked, done, keep, skip}

module _ {ℓ} {A : Type ℓ} where
  subset_of-Picked : (mask : ℕ) (l : List (Item A)) → Picked (subset_of mask l) l
  unfolding subset_of
  subset_of-Picked mask [] = done
  subset_of-Picked mask (x ∷ l) = elim (Bool-cases (nat_beq (mask % 2) 1)) [
    | inl bit ↦ rw bit (keep (subset_of-Picked (mask / 2) l))
    | inr none_here ↦ rw none_here (skip (subset_of-Picked (mask / 2) l))
  ]

  pub zero_mask : (l : List (Item A)) → subset_of 0 l ≡ []
  unfolding subset_of
  zero_mask [] = refl
  zero_mask (x ∷ l) = zero_mask l

  -- The mask of a selection.
  pub mask_of-Picked :
      {r l : List (Item A)}
      → Picked r l
      → (mask : ℕ) × (subset_of mask l ≡ r) × (mask < 2 ^ length l)
  unfolding subset_of
  mask_of-Picked done = (0, refl, omega arith)
  mask_of-Picked (keep {r} {l} p) =
      let (mask, same, small) = mask_of-Picked p in
      let half : (2 * mask + 1) / 2 ≡ mask = omega arith in
      let odd : nat_beq ((2 * mask + 1) % 2) 1 ≡ true = ground arith in
      (2 * mask + 1, rw (odd, half, same), omega (arith, two-pow-succ (length l)))
  mask_of-Picked (skip {r} {l} p) =
      let (mask, same, small) = mask_of-Picked p in
      let half : (2 * mask) / 2 ≡ mask = omega arith in
      let even : nat_beq ((2 * mask) % 2) 1 ≡ false = ground arith in
      (2 * mask, rw (even, half, same), omega (arith, two-pow-succ (length l)))

  -- A selection that the second loop may return.
  abbrev pub IsSplit : ℤ → ℕ → List (Item A) → Type 0
  IsSplit target tol r = (1 < length r) × (is_within tol (sum_of amount_of r) target ≡ true)

  abbrev is_split : ℤ → ℕ → List (Item A) → Bool
  is_split target tol r = ltb 1 (length r) && is_within tol (sum_of amount_of r) target

  is_split_iff :
      (target : ℤ) (tol : ℕ) (r : List (Item A))
      → (is_split target tol r ≡ true) ↔ IsSplit target tol r
  is_split_iff target tol r = ground arith

  first_subset-cons :
      (target : ℤ) (tol : ℕ) (l : List (Item A)) (rounds mask : ℕ)
      → first_subset target tol l (suc rounds) mask ≡ (
          if is_split target tol (subset_of mask l)
          then subset_of mask l
          else first_subset target tol l rounds (mask + 1))
  unfolding first_subset
  first_subset-cons target tol l rounds mask = refl

  pub first_subset_sound :
      (target : ℤ) (tol : ℕ) (l : List (Item A)) (rounds mask : ℕ) (r : List (Item A))
      → first_subset target tol l rounds mask ≡ r
      → r ≢ []
      → Picked r l × IsSplit target tol r
  first_subset_sound target tol l zero mask r e full =
      absurd (full (sym e ∙ unfold first_subset in refl))
  first_subset_sound target tol l (suc rounds) mask r e full =
      elim (Bool-cases (is_split target tol (subset_of mask l))) [
        | inl found ↦
            let same : subset_of mask l ≡ r =
              rw (first_subset-cons target tol l rounds mask, found) at e in
            rw (← same) (subset_of-Picked mask l, (is_split_iff target tol _).0 found)
        | inr missed ↦
            first_subset_sound target tol l rounds (mask + 1) r
              (rw (first_subset-cons target tol l rounds mask, missed) at e) full
      ]

  pub first_subset_complete :
      (target : ℤ) (tol : ℕ) (l : List (Item A)) (rounds mask m : ℕ)
      → mask ≤ m
      → m < mask + rounds
      → IsSplit target tol (subset_of m l)
      → first_subset target tol l rounds mask ≢ []
  first_subset_complete target tol l zero mask m low high split = absurd (omega arith)
  first_subset_complete target tol l (suc rounds) mask m low high split =
      elim (Bool-cases (is_split target tol (subset_of mask l))) [
        | inl found ↦
            rw (first_subset-cons target tol l rounds mask, found)
              (λ none_left.
                let (long, _) = (is_split_iff target tol (subset_of mask l)).0 found in
                omega (arith, ap length none_left, long))
        | inr missed ↦
            rw (first_subset-cons target tol l rounds mask, missed)
              (first_subset_complete target tol l rounds (mask + 1) m
                (later (is_split_iff target tol (subset_of m l)) split missed) (omega arith) split)
      ]
    where
      later :
          ((is_split target tol (subset_of m l) ≡ true) ↔ IsSplit target tol (subset_of m l))
          → IsSplit target tol (subset_of m l)
          → is_split target tol (subset_of mask l) ≡ false
          → mask + 1 ≤ m
      later iff holds missed = elim (Bool-cases (nat_beq mask m)) [
        | inl same ↦ absurd (clash (rw ((nat_beq_iff mask m).0 same) at missed) (iff.1 holds))
        | inr other ↦ ground arith
      ]
        where
          clash : {b : Bool} → b ≡ false → b ≡ true → ⊥
          clash p q = cc
